-- ===== src/Cli/Cvm/Phases.antt =====
-- The order of the calls of `runDockerCVM` in cli/docker.go, and runs that keep it.
use mathlib.Core.Path.{subst}
use envbox.Prelude.{
  ℕ, suc, ◌≤◌, ◌≡◌, refl, sym, ap, ◌∙◌, List, [], ◌∷◌, ◌++◌, append_assoc, append-nil, map, Option,
  Bytes, Error, Result, ok, err, arith,
}
use envbox.Prelude.Steps.{Nil, Step, after, ◌>>=◌, given, call, ask, embed}
use envbox.Xunix.Effect.{Effect}
use envbox.Cli.Cvm.{
  Call, set_oom_score, prepare, pull, remount_sys, unmount_gpu_drivers, inspect_image, shift,
  find_gpus, create, prune, start, make_dir, set_quota, exec_create, exec_attach, copy_script,
  close_write,
}

-- The place of a call in the order.
abbrev pub phase : Call → ℕ
phase set_oom_score = 0
phase (prepare e) = 1
phase (pull image auth) = 2
phase remount_sys = 3
phase unmount_gpu_drivers = 4
phase (inspect_image image username) = 5
phase (shift e) = 6
phase (find_gpus dir) = 7
phase (create config name) = 8
phase prune = 9
phase (start id) = 10
phase (make_dir id user dir) = 11
phase (set_quota id quota) = 12
phase (exec_create id user dir) = 13
phase (exec_attach id) = 14
phase (copy_script script) = 15
phase close_write = 16

-- The first phase that may follow: only calls on devices and on mounts are repeated.
abbrev pub next_phase : Call → ℕ
next_phase (prepare e) = 1
next_phase (shift e) = 6
next_phase c = suc (phase c)

-- The calls are in order, from phase `lo` on and before phase `hi`.
abbrev pub Ordered : ℕ → ℕ → List Call → Type 0
Ordered lo hi [] = lo ≤ hi
Ordered lo hi (c ∷ cs) = (lo ≤ phase c) × Ordered (next_phase c) hi cs

Ordered-weaken : (lo lo' hi : ℕ) (cs : List Call) → lo ≤ lo' → Ordered lo' hi cs → Ordered lo hi cs
Ordered-weaken lo lo' hi [] le h = omega arith
Ordered-weaken lo lo' hi (c ∷ cs) le (h, o) = (omega arith, o)

Ordered-append :
    (lo mid hi : ℕ) (cs ds : List Call)
    → Ordered lo mid cs
    → Ordered mid hi ds
    → Ordered lo hi (cs ++ ds)
Ordered-append lo mid hi [] ds h o = Ordered-weaken lo mid hi ds h o
Ordered-append lo mid hi (c ∷ cs) ds (h, o) o' =
    (h, Ordered-append (next_phase c) mid hi cs ds o o')

-- Calls in order, before a later phase.
Ordered-raise : (lo hi hi' : ℕ) (cs : List Call) → hi ≤ hi' → Ordered lo hi cs → Ordered lo hi' cs
Ordered-raise lo hi hi' [] le h = omega arith
Ordered-raise lo hi hi' (c ∷ cs) le (h, o) = (h, Ordered-raise (next_phase c) hi hi' cs le o)

-- A run adds calls in order.
pub record Adds {A : Type 0} (lo hi : ℕ) (r : Step Call A) : Type 0 where
  pub added : (t : List Call) → (cs : List Call) × ((r t).1 ≡ t ++ cs) × Ordered lo hi cs

pub Adds-given : {A : Type 0} (lo hi : ℕ) (r : Result A) → lo ≤ hi → Adds lo hi (given r)
Adds-given lo hi r le = record { added = λ t. ([], sym (append-nil t), le) }

pub Adds-call :
    (lo hi : ℕ) (what : Bytes) (c : Call) (answer : List Call → Option Error)
    → lo ≤ phase c
    → next_phase c ≤ hi
    → Adds lo hi (call what c answer)
unfolding call
Adds-call lo hi what c answer le le' = record { added = λ t. (c ∷ [], refl, (le, le')) }

pub Adds-ask :
    {A : Type 0} (lo hi : ℕ) (what : Bytes) (c : Call) (answer : List Call → Result A)
    → lo ≤ phase c
    → next_phase c ≤ hi
    → Adds lo hi (ask what c answer)
unfolding ask
Adds-ask lo hi what c answer le le' = record { added = λ t. (c ∷ [], refl, (le, le')) }

pub Adds-bind :
    {A B : Type 0} (lo mid hi : ℕ) (r : Step Call A) (f : A → Step Call B)
    → mid ≤ hi
    → Adds lo mid r
    → ((a : A) → Adds mid hi (f a))
    → Adds lo hi (r >>= f)
Adds-bind {A} {B} lo mid hi r f le m n = record { added = λ t. behind t (r t) (m.added t) }
  where
    behind :
        (t : List Call) (result : Result A × List Call)
        → (cs : List Call) × (result.1 ≡ t ++ cs) × Ordered lo mid cs
        → (cs : List Call) × ((after result f).1 ≡ t ++ cs) × Ordered lo hi cs
    behind t (err e, u) (cs, grown, o) =
        (cs, unfold after in grown, Ordered-raise lo mid hi cs le o)
    behind t (ok a, u) (cs, grown, o) =
        let (ds, grown', o') = (n a).added u in
        (
          cs ++ ds,
          unfold after in grown' ∙ ap (λ l. l ++ ds) grown ∙ append_assoc t cs ds,
          Ordered-append lo mid hi cs ds o o',
        )

repeated-Ordered :
    (k : ℕ) (made : Effect → Call)
    → ((e : Effect) → (phase (made e) ≡ k) × (next_phase (made e) ≡ k))
    → (es : List Effect) → Ordered k k (map made es)
repeated-Ordered k made h [] = omega arith
repeated-Ordered k made h (e ∷ es) = (
  omega (arith, (h e).0),
  subst (λ j. Ordered j k (map made es)) (sym (h e).1) (repeated-Ordered k made h es),
)

pub Adds-embed :
    {A : Type 0} (k hi : ℕ) (made : Effect → Call) (run : List Call → Step Effect A)
    → ((e : Effect) → (phase (made e) ≡ k) × (next_phase (made e) ≡ k))
    → k ≤ hi
    → Adds k hi (embed made run)
unfolding embed
Adds-embed k hi made run h le = record {
  added = λ t. (
    map made (run t []).1,
    refl,
    Ordered-raise k k hi (map made (run t []).1) le (repeated-Ordered k made h (run t []).1),
  );
}

-- A call, and what follows it.
module _ {B : Type 0} (lo hi : ℕ) (what : Bytes) (c : Call) (before : lo ≤ phase c)
    (within : next_phase c ≤ hi) where
  pub call_then :
      (answer : List Call → Option Error) (f : Nil → Step Call B)
      → ((a : Nil) → Adds (next_phase c) hi (f a))
      → Adds lo hi (call what c answer >>= f)
  call_then answer f =
      Adds-bind lo (next_phase c) hi (call what c answer) f within
        (Adds-call lo (next_phase c) what c answer before (omega arith))

  pub ask_then :
      {A : Type 0} (answer : List Call → Result A) (f : A → Step Call B)
      → ((a : A) → Adds (next_phase c) hi (f a))
      → Adds lo hi (ask what c answer >>= f)
  ask_then answer f =
      Adds-bind lo (next_phase c) hi (ask what c answer) f within
        (Adds-ask lo (next_phase c) what c answer before (omega arith))

pub given_then :
    {A B : Type 0} (lo hi : ℕ) (r : Result A) (f : A → Step Call B)
    → lo ≤ hi
    → ((a : A) → Adds lo hi (f a))
    → Adds lo hi (given r >>= f)
given_then lo hi r f le = Adds-bind lo lo hi (given r) f le (Adds-given lo lo r (omega arith))
