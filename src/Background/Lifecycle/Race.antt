-- ===== src/Background/Lifecycle/Race.antt =====
-- What `Restart` of background/process.go does to the channels while the old command still runs.
use envbox.Prelude.{◌≡◌, refl, arith, Bool, true, false, List, [], ◌∷◌, ◌++◌, none, some, Bytes}
use envbox.Background.Process.{wait_result, err_user_killed}
use envbox.Background.Lifecycle.{
  Chan, receive, Exit, waiting, ended, Life, Process, Event, exits, loads, sends, closes, run,
  restart_events,
}

-- `Restart`, whose `kill` returned at once, and then the old command ends.
abbrev pub late_exit : Bytes → Exit → List Event
late_exit name x = restart_events name none none ++ exits 1 x ∷ loads 1 ∷ sends 1 ∷ closes 1 ∷ []

module _ (ch : Chan) (bin_name : Bytes) (killed cancelled : Bool) (past : List Life) where
  -- A process whose command runs.
  abbrev pub running : Process
  running = record {
    current = record {
      bin_name = bin_name;
      user_killed = killed;
      wait_ch = ch;
      worker = waiting;
      cancelled = cancelled;
    };
    past = past;
    panicked = false;
  }

  late : Exit → Life
  late x = record {
    bin_name = bin_name;
    user_killed = true;
    wait_ch = record ch { closed = true };
    worker = ended x (some err_user_killed);
    cancelled = true;
  }

  run-late_exit :
      (name : Bytes) (x : Exit)
      → run (late_exit name x) running
        ≡ some (record {
          current = record {
            bin_name = name;
            user_killed = false;
            wait_ch = record {
              buffer = some (some err_user_killed);
              closed = false;
              history = some err_user_killed ∷ [];
            };
            worker = waiting;
            cancelled = false;
          };
          past = late x ∷ past;
          panicked = false;
        })
  unfolding run restart_events wait_result late
  run-late_exit name x = refl

receive_closed :
    (ch : Chan)
    → ch.buffer ≡ none
    → ch.closed ≡ true
    → (rest : Chan) × (receive ch ≡ some (none, rest))
unfolding receive
receive_closed ch empty closed = (ch, ground arith)

-- What happens if the new command ends first.
abbrev pub early_exit : Bytes → Exit → Exit → List Event
early_exit name x y =
    restart_events name none none
    ++ exits 0 y ∷ loads 0 ∷ sends 0 ∷ closes 0 ∷ exits 1 x ∷ loads 1 ∷ sends 1 ∷ []

-- Where the command of a process runs on while `Restart` replaces it, as `kill` allows, and ends behind
-- that, the channel of the new command gives the error for a command that the user killed though the new
-- command runs, and the channel of the old command, if it was empty, gives nil.
pub restart_late_exit :
    (name : Bytes) (ch : Chan) (bin_name : Bytes) (killed cancelled : Bool) (past : List Life)
    (x : Exit)
    → ch.buffer ≡ none
    → (new : Life) × (old : Life) × (run
          (late_exit name x)
          (running ch bin_name killed cancelled past)
        ≡ some (record { current = new; past = old ∷ past; panicked = false }))
      × (new.worker ≡ waiting)
      × ((rest : Chan) × (receive new.wait_ch ≡ some (some err_user_killed, rest)))
      × (old.worker ≡ ended x (some err_user_killed))
      × ((rest : Chan) × (receive old.wait_ch ≡ some (none, rest)))
unfolding receive late
restart_late_exit name ch bin_name killed cancelled past x empty = (
  _,
  late ch bin_name killed cancelled past x,
  run-late_exit ch bin_name killed cancelled past name x,
  refl,
  (_, refl),
  refl,
  receive_closed (record ch { closed = true }) empty refl,
)

-- Where the new command ends first, and its goroutine closes its channel, that of the old command sends on
-- a closed channel, which is a panic.
pub restart_early_exit :
    (name : Bytes) (ch : Chan) (bin_name : Bytes) (killed cancelled : Bool) (past : List Life)
    (x y : Exit)
    → (q : Process) × (run (early_exit name x y) (running ch bin_name killed cancelled past)
        ≡ some q)
      × (q.panicked ≡ true)
unfolding run restart_events wait_result
restart_early_exit name ch bin_name killed cancelled past x y = (_, refl, refl)
