-- ===== src/Background/Process/Exit.antt =====
-- `isProcExited` and the loop of `kill` of background/process.go.
use envbox.Prelude.{
  ℕ, suc, ◌≡◌, ◌≢◌, ◌↔◌, refl, ℕ_discrete, sym, ap, ◌∙◌, Bool, true, false, not, List, [], ◌∷◌,
  ◌++◌, Option, none, some, Bytes, same, same→eq, same_self, split, Error, Result, ok, arith,
  Bool-cases, inl, inr, Lacks, cons-ne-nil, cons_first, ◌==◌, ==_self, if◌then◌else◌, ◌⊎◌,
}
use envbox.Background.Process.{is_proc_exited, other_command, await_exit, kill}

-- The part of a text before a byte.
abbrev before : ℕ → Bytes → Bytes
before sep [] = []
before sep (c ∷ s) = if c == sep then [] else c ∷ before sep s

split-before : (s : Bytes) (sep : ℕ) → (rest : List Bytes) × (split s sep ≡ before sep s ∷ rest)
unfolding split cons_first
split-before [] sep = ([], refl)
split-before (c ∷ s) sep =
    let (rest, e) = split-before s sep in
    elim (Bool-cases (c == sep)) [
      | inl t ↦ (split s sep, rw t refl)
      | inr f ↦ (rest, rw (f, e) refl)
    ]

-- No text is its own part before a byte if a byte stands behind it that is another.
before-ne : (s rest : Bytes) (sep d : ℕ) → d ≢ sep → before sep (s ++ d ∷ rest) ≢ s
before-ne [] rest sep d ne =
    let t : (d == sep) ≡ false = ground arith in rw t (cons-ne-nil d (before sep rest))
before-ne (c ∷ s) rest sep d ne = elim (Bool-cases (c == sep)) [
  | inl t ↦ rw t (λ e. cons-ne-nil c s (sym e))
  | inr f ↦ rw f (λ e. before-ne s rest sep d ne (cc e))
]

before_split :
    (s : Bytes) (sep : ℕ) → (s ≡ before sep s) ⊎ ((rest : Bytes) × (s ≡ before sep s ++ sep ∷ rest))
before_split [] sep = inl refl
before_split (c ∷ s) sep = elim (ℕ_discrete c sep) [
  | yes e ↦ let t : (c == sep) ≡ true = ground arith in inr (s, rw t (ap (λ d. d ∷ s) e))
  | no ne ↦
      let f : (c == sep) ≡ false = ground arith in
      elim (before_split s sep) [
        | inl whole ↦ inl (rw f (ap (λ t. c ∷ t) whole))
        | inr (rest, cut) ↦ inr (rest, rw f (ap (λ t. c ∷ t) cut))
      ]
]

before-Lacks : (s : Bytes) (sep : ℕ) → Lacks sep s → before sep s ≡ s
before-Lacks [] sep a = refl
before-Lacks (c ∷ s) sep (ne, a) =
    let f : (c == sep) ≡ false = ground arith in rw (f, before-Lacks s sep a)

before-append : (s rest : Bytes) (sep : ℕ) → Lacks sep s → before sep (s ++ sep ∷ rest) ≡ s
before-append [] rest sep a = rw ==_self
before-append (c ∷ s) rest sep (ne, a) =
    let f : (c == sep) ≡ false = ground arith in rw (f, before-append s rest sep a)

not-false : (b : Bool) → ◌≡◌ {A = Result Bool} (ok (not b)) (ok false) → b ≡ true
not-false true h = refl
not-false false h = cc

is_proc_exited_cmdline :
    (cmdline name : Bytes)
    → is_proc_exited (ok cmdline) name ≡ ok (not (same name (before b'0' cmdline)))
unfolding is_proc_exited other_command
is_proc_exited_cmdline cmdline name = let (rest, e) = split-before cmdline b'0' in rw e refl

same-ne : (s t : Bytes) → s ≢ t → same s t ≡ false
same-ne s t ne = elim (Bool-cases (same s t)) [ inl e ↦ absurd (ne (same→eq s t e)) | inr f ↦ f ]

-- The kernel ends every argument of /proc/<pid>/cmdline with a NUL byte. While the process runs, and
-- the file shows its command and a NUL byte, `isProcExited` says that it has exited: it splits at the
-- digit 0, whose byte is 48, where the NUL byte is meant.
pub is_proc_exited_running :
    (name rest : Bytes) → is_proc_exited (ok (name ++ 0 ∷ rest)) name ≡ ok true
is_proc_exited_running name rest =
    is_proc_exited_cmdline (name ++ 0 ∷ rest) name
    ∙ ap (λ b. ok (not b))
        (same-ne name (before b'0' (name ++ 0 ∷ rest))
          (λ e. before-ne name rest b'0' 0 (omega arith) (sym e)))

-- `isProcExited` says that a process runs exactly where its file can be read and holds the command,
-- which has no digit 0, and then nothing or a digit 0.
pub is_proc_exited_iff :
    (cmdline name : Bytes)
    → Lacks b'0' name
    → (is_proc_exited (ok cmdline) name ≡ ok false)
      ↔ ((cmdline ≡ name) ⊎ ((rest : Bytes) × (cmdline ≡ name ++ b'0' ∷ rest)))
is_proc_exited_iff cmdline name lacks = (to, from)
  where
    to :
        is_proc_exited (ok cmdline) name ≡ ok false
        → (cmdline ≡ name) ⊎ ((rest : Bytes) × (cmdline ≡ name ++ b'0' ∷ rest))
    to h =
        let same_text : same name (before b'0' cmdline) ≡ true =
          not-false _ (sym (is_proc_exited_cmdline cmdline name) ∙ h) in
        let e : name ≡ before b'0' cmdline = same→eq _ _ same_text in
        elim (before_split cmdline b'0') [
          | inl whole ↦ inl (whole ∙ sym e)
          | inr (rest, cut) ↦ inr (rest, cut ∙ ap (λ t. t ++ b'0' ∷ rest) (sym e))
        ]

    from :
        (cmdline ≡ name) ⊎ ((rest : Bytes) × (cmdline ≡ name ++ b'0' ∷ rest))
        → is_proc_exited (ok cmdline) name ≡ ok false
    from (inl e) =
        is_proc_exited_cmdline cmdline name
        ∙ rw (e, before-Lacks name b'0' lacks, same_self name) refl
    from (inr (rest, e)) =
        is_proc_exited_cmdline cmdline name
        ∙ rw (e, before-append name rest b'0' lacks, same_self name) refl

await_exit_once :
    (read : ℕ → Result Bytes) (done : ℕ → Option Error) (name : Bytes) (fuel k : ℕ)
    → is_proc_exited (read k) name ≡ ok true
    → await_exit read done name (suc fuel) k ≡ some none
unfolding await_exit
await_exit_once read done name fuel k h = rw (await_exit, h) refl

-- Where the signal is sent and the first look at /proc/<pid>/cmdline shows the name and a NUL byte behind
-- it, which is a process that runs, `kill` returns without an error at that look, whatever later looks show.
pub kill_running :
    (read : ℕ → Result Bytes) (done : ℕ → Option Error) (name rest : Bytes) (fuel : ℕ)
    (killed : Bool)
    → read 0 ≡ ok (name ++ 0 ∷ rest)
    → kill read done name (suc fuel) true none killed ≡ (some none, true)
unfolding kill
kill_running read done name rest fuel killed running =
    ap (λ r. (r, true))
      (await_exit_once read done name fuel 0
        (ap (λ r. is_proc_exited r name) running ∙ is_proc_exited_running name rest))
