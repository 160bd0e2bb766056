-- ===== src/Background/Lifecycle.antt =====
-- background/process.go: the life of a process, from `New` over `Start` and `Restart`, as steps of its
-- goroutines that the scheduler puts in any order.
--
-- `New` and each `Restart` begin a life: a command, a flag `userKilled` and a channel. The goroutine that
-- `startProcess` starts keeps the command and the flag of its life, and closes the channel of its life,
-- whose value its deferred call took at its start; but it sends on the channel of the process at the time
-- of the send. Life 0 is the current one, and 1 the one before it. `Start`, `Wait` and `Restart` hold a
-- mutex, so that their own steps do not interleave.
pub mod Orderly
mod Stages
pub mod Race
mod Tests
use envbox.Prelude.{
  ℕ, zero, suc, Bool, true, false, not, List, [], ◌∷◌, ◌++◌, Option, none, some, Bytes, codes,
  Error, wrap, if◌then◌else◌,
}
use envbox.Background.Process.{wait_result}

-- A channel of errors with room for one. `history` is what was ever sent.
pub record Chan : Type 0 where
  pub buffer : Option (Option Error)
  pub closed : Bool
  pub history : List (Option Error)

abbrev pub make_chan : Chan
make_chan = record { buffer = none; closed = false; history = [] }

-- A receive: none where it blocks, and nil from a channel that is closed and empty.
pub receive : Chan → Option (Option Error × Chan)
receive ch = elim ch.buffer [
  | some v ↦ some (v, record ch { buffer = none })
  | none ↦ if ch.closed then some (none, ch) else none
]

-- What a command wrote, as its writer keeps it, and what `cmd.Wait` answers.
pub record Exit : Type 0 where
  pub output : Bytes
  pub result : Option Error

-- Where the goroutine of `startProcess` stands: not started, in `cmd.Wait`, behind it, behind the test of
-- the flag with the value to send, behind the send, and behind its deferred calls.
pub data Worker : Type 0 where
  idle : Worker
  waiting : Worker
  exited : Exit → Worker
  picked : Exit → Option Error → Worker
  sent : Exit → Option Error → Worker
  ended : Exit → Option Error → Worker

pub record Life : Type 0 where
  pub bin_name : Bytes
  pub user_killed : Bool
  pub wait_ch : Chan
  pub worker : Worker
  pub cancelled : Bool

pub record Process : Type 0 where
  pub current : Life
  pub past : List Life
  pub panicked : Bool

abbrev pub new_life : Bytes → Life
new_life bin_name = record {
  bin_name = bin_name;
  user_killed = false;
  wait_ch = make_chan;
  worker = idle;
  cancelled = false;
}

-- `New`
abbrev pub new_process : Bytes → Process
new_process bin_name = record { current = new_life bin_name; past = []; panicked = false }

-- The steps. The number is that of the life whose goroutine or channel it is.
pub data Event : Type 0 where
  -- `cmd.Start` in `startProcess`, and its answer
  starts : Option Error → Event
  exits : ℕ → Exit → Event
  loads : ℕ → Event
  sends : ℕ → Event
  closes : ℕ → Event
  -- a receive from the channel that `Wait` returned
  takes : ℕ → Event
  -- `kill`, up to the signal
  signals : Event
  -- the assignments of `Restart`
  swaps : Bytes → Event

-- `cmd.OSProcess` is there from `cmd.Start` on.
pub is_started : Worker → Bool
is_started idle = false
is_started _ = true

-- The steps of a goroutine, on its own life.
pub launch : Worker → Option Worker
launch idle = some waiting
launch _ = none

pub reap : Exit → Worker → Option Worker
reap x waiting = some (exited x)
reap x _ = none

pub pick : Bool → Worker → Option Worker
pick killed (exited x) = some (picked x (wait_result killed x.output x.result))
pick killed _ = none

pub mark_sent : Worker → Option (Option Error × Worker)
mark_sent (picked x v) = some (v, sent x v)
mark_sent _ = none

pub leave : Worker → Option Worker
leave (sent x v) = some (ended x v)
leave _ = none

pub with_worker : Life → Option Worker → Option Life
with_worker l none = none
with_worker l (some w) = some (record l { worker = w })

pub closed_life : Life → Option Life
closed_life l =
    with_worker (record l { wait_ch = record l.wait_ch { closed = true }; cancelled = true })
      (leave l.worker)

pub took : Life → Option (Option Error × Chan) → Option Life
took l none = none
took l (some (v, ch)) = some (record l { wait_ch = ch })

-- A step on one life.
pub on_past : ℕ → (Life → Option Life) → List Life → Option (List Life)
on_past n f [] = none
on_past zero f (l ∷ ls) = elim (f l) [ none ↦ none | some l' ↦ some (l' ∷ ls) ]
on_past (suc n) f (l ∷ ls) = elim (on_past n f ls) [ none ↦ none | some ls' ↦ some (l ∷ ls') ]

pub on_life : ℕ → (Life → Option Life) → Process → Option Process
on_life zero f p = elim (f p.current) [ none ↦ none | some l ↦ some (record p { current = l }) ]
on_life (suc n) f p = elim (on_past n f p.past) [
  | none ↦ none
  | some ls ↦ some (record p { past = ls })
]

-- A send on the channel of the process: none where it blocks.
pub post : Option Error → Process → Option Process
post v p =
    if p.current.wait_ch.closed
    then some (record p { panicked = true })
    else elim p.current.wait_ch.buffer [
      | some _ ↦ none
      | none ↦ some (record p {
        current = record p.current {
          wait_ch = record {
            buffer = some v;
            closed = false;
            history = p.current.wait_ch.history ++ v ∷ [];
          };
        };
      })
    ]

-- The goroutine of a life past its send, and the value of that.
pub sent_life : Life → Option (Option Error × Life)
sent_life l = elim (mark_sent l.worker) [
  | none ↦ none
  | some (v, w) ↦ some (v, record l { worker = w })
]

pub sent_past : ℕ → List Life → Option (Option Error × List Life)
sent_past n [] = none
sent_past zero (l ∷ ls) = elim (sent_life l) [ none ↦ none | some (v, l') ↦ some (v, l' ∷ ls) ]
sent_past (suc n) (l ∷ ls) = elim (sent_past n ls) [
  | none ↦ none
  | some (v, ls') ↦ some (v, l ∷ ls')
]

pub send : ℕ → Process → Option Process
unfolding post sent_life sent_past mark_sent
send zero p = elim (sent_life p.current) [
  | none ↦ none
  | some (v, l) ↦ post v (record p { current = l })
]
send (suc n) p = elim (sent_past n p.past) [
  | none ↦ none
  | some (v, ls) ↦ post v (record p { past = ls })
]

-- A step, none where it cannot be taken. A command that was started is not started again. What the signal
-- answers is not looked at: `swaps` can be taken behind it also where the command was reaped, whose signal
-- makes `Restart` return an error, so that there are more runs than those of the code.
pub step : Event → Process → Option Process
unfolding is_started launch reap pick leave with_worker closed_life took on_past on_life send
    receive
step (starts (some e)) p = some p
step (starts none) p = on_life 0 (λ l. with_worker l (launch l.worker)) p
step (exits n x) p = on_life n (λ l. with_worker l (reap x l.worker)) p
step (loads n) p = on_life n (λ l. with_worker l (pick l.user_killed l.worker)) p
step (sends n) p = send n p
step (closes n) p = on_life n closed_life p
step (takes n) p = on_life n (λ l. took l (receive l.wait_ch)) p
step signals p =
    if is_started p.current.worker
    then some (record p { current = record p.current { user_killed = true } })
    else none
step (swaps bin_name) p = some (record p { current = new_life bin_name; past = p.current ∷ p.past })

pub run : List Event → Process → Option Process
unfolding step
run [] p = some p
run (e ∷ es) p = elim (step e p) [ none ↦ none | some q ↦ run es q ]

-- `Restart` on a command that was started, given what `kill` and `cmd.Start` answer: its steps, and
-- what it returns.
pub restart_events : Bytes → Option Error → Option Error → List Event
restart_events bin_name (some e) started = signals ∷ []
restart_events bin_name none started = signals ∷ swaps bin_name ∷ starts started ∷ []

-- What `Start` returns, given what `cmd.Start` answers.
start_result : Option Error → Option Error
start_result none = none
start_result (some e) = some (wrap (codes "start") e)

restart_result : Option Error → Option Error → Option Error
unfolding start_result
restart_result (some e) started = some (wrap (codes "kill cmd") e)
restart_result none started = start_result started

-- The channel of `Run`: that of the process, or one with the error of `Start`.
run_chan : Option Error → Chan → Chan
run_chan none wait_ch = wait_ch
run_chan (some e) wait_ch = record { buffer = some (some e); closed = false; history = some e ∷ [] }
