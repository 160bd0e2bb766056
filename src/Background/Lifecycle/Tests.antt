-- ===== src/Background/Lifecycle/Tests.antt =====
-- A Docker daemon that runs out of space and is restarted, and one that is restarted while it runs.
use envbox.Prelude.{◌≡◌, refl, true, false, [], ◌∷◌, Option, none, some, codes, failure, wrap}
use envbox.Background.Process.{err_user_killed, wait_result}
use envbox.Background.Lifecycle.{
  Chan, make_chan, receive, Exit, waiting, ended, Life, Process, new_process, starts, exits, loads,
  sends, closes, takes, signals, swaps, step, run,
}
use envbox.Background.Lifecycle.Orderly.{Inv, Awaited, here, next, Awaited-Inv}
use envbox.Background.Lifecycle.Race.{
  running, late_exit, early_exit, restart_late_exit, restart_early_exit,
}

abbrev full : Exit
full = record {
  output = codes "no space left on device";
  result = some (failure (codes "exit status 1"));
}

-- The first command ends and is read, and another is started.
abbrev restarted : Option Process
restarted =
    run
      (starts none
        ∷ exits 0 full
        ∷ loads 0
        ∷ sends 0
        ∷ closes 0
        ∷ takes 0
        ∷ signals
        ∷ swaps (codes "dockerd")
        ∷ starts none
        ∷ [])
      (new_process (codes "dockerd"))

abbrev second_life : Process
second_life = record {
  current = record {
    bin_name = codes "dockerd";
    user_killed = false;
    wait_ch = make_chan;
    worker = waiting;
    cancelled = false;
  };
  past =
      record {
        bin_name = codes "dockerd";
        user_killed = true;
        wait_ch = record {
          buffer = none;
          closed = true;
          history = some (wrap full.output (failure (codes "exit status 1"))) ∷ [];
        };
        worker = ended full (some (wrap full.output (failure (codes "exit status 1"))));
        cancelled = true;
      }
      ∷ [];
  panicked = false;
}

restarted_run : restarted ≡ some second_life
unfolding run wait_result
restarted_run = refl

second_life-Awaited : Awaited (new_process (codes "dockerd")) second_life
unfolding step wait_result
second_life-Awaited =
    next (starts none)
      (next (swaps (codes "dockerd"))
        (next signals
          (next (takes 0)
            (next (closes 0)
              (next (sends 0)
                (next (loads 0) (next (exits 0 full) (next (starts none) here tt refl) tt refl) tt
                  refl)
                tt refl)
              tt refl)
            tt refl)
          tt refl)
        tt refl)
      tt refl

Awaited-Inv_example : Inv second_life
Awaited-Inv_example = Awaited-Inv (codes "dockerd") second_life-Awaited

restart_late_exit_example :
    (new : Life) × (old : Life) × (run
        (late_exit (codes "dockerd") full)
        (running make_chan (codes "dockerd") false false [])
      ≡ some (record { current = new; past = old ∷ []; panicked = false }))
    × (new.worker ≡ waiting)
    × ((rest : Chan) × (receive new.wait_ch ≡ some (some err_user_killed, rest)))
    × (old.worker ≡ ended full (some err_user_killed))
    × ((rest : Chan) × (receive old.wait_ch ≡ some (none, rest)))
restart_late_exit_example =
    restart_late_exit (codes "dockerd") make_chan (codes "dockerd") false false [] full refl

early_exit_panics :
    (q : Process) × (run
        (early_exit (codes "dockerd") full full)
        (running make_chan (codes "dockerd") false false [])
      ≡ some q)
    × (q.panicked ≡ true)
early_exit_panics =
    restart_early_exit (codes "dockerd") make_chan (codes "dockerd") false false [] full full
