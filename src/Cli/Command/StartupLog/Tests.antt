-- ===== src/Cli/Command/StartupLog/Tests.antt =====
-- The build log of a command, with startup logs and without.
use envbox.Prelude.{
  ◌+◌, ◌≡◌, refl, true, List, [], ◌∷◌, ◌++◌, none, some, Bytes, codes, same, failure, ok, take,
  length,
}
use envbox.Buildlog.Cut.{concat}
use envbox.Buildlog.Multi.{Logger, multi_logger, nop_logger}
use envbox.Buildlog.Coder.{
  level_info, level_error, build_info, Api, agent_client_v1, open_coder_client, open_coder_logger,
}
use envbox.Buildlog.Coder.Sent.{log_all}
use envbox.Buildlog.Json.{Encoder, json_logger}
use envbox.Cli.Cvm.Sample.{outside}
use envbox.Cli.Command.{Options}
use envbox.Cli.Command.Sample.{options, host}
use envbox.Cli.Command.StartupLog.{
  State, on_api, on_stderr, base_log, open_blog, finish_blog, copy_output, err_short_write,
}
use envbox.Cli.Command.StartupLog.Told.{shown, entries, ending, finish_blog-open_blog}
use envbox.Cli.Command.StartupLog.Output.{
  info_all, copy_output-open_blog, copy_output-no_startup_logs,
}

-- A server of an old version, which takes no requests.
abbrev old_server : Api
old_server = record {
  build_info = λ t. ok (codes "v2.9");
  patch_logs = λ t. some (failure (codes "refused"));
  connect_rpc = λ t. some (failure (codes "refused"));
  script_send = λ t. none;
  wait_until_empty = λ t. none;
  wait = λ t. true;
  now = λ t k. length t + k;
  major_minor = λ v. v;
  is_below = λ v w. true;
}

abbrev stderr : Encoder
stderr = record { encode = λ records r. none; now = λ records. length records }

abbrev start : State
start = ([], some [])

abbrev asked : State
asked = (build_info ∷ [], some [])

abbrev with_api : Options
with_api = record options { coder_url = codes "https://coder.example" }

-- The log to the API and to the standard error.
abbrev both : Logger State
both =
    multi_logger (
      on_api (open_coder_logger (agent_client_v1 old_server)) ∷ on_stderr (json_logger stderr) ∷ [])

both_opened : open_blog (host outside) old_server stderr with_api 0 start ≡ some (ok both, asked)
unfolding open_blog base_log same open_coder_client
both_opened = refl

finish_blog-open_blog_example :
    shown
      (finish_blog both
        (some (failure (codes "no space")))
        (log_all both ((level_info, codes "pulling") ∷ (level_error, codes "denied") ∷ []) asked)).1
    ≡ some (
        entries ((level_info, codes "pulling") ∷ (level_error, codes "denied") ∷ [])
        ++ ending (some (failure (codes "no space"))))
finish_blog-open_blog_example =
    finish_blog-open_blog (host outside) old_server stderr with_api 0 [] both asked
      ((level_info, codes "pulling") ∷ (level_error, codes "denied") ∷ [])
      (some (failure (codes "no space"))) (λ records r. refl) refl both_opened

copy_output-open_blog_example :
    (lines : List Bytes) × (concat lines ≡ take 1024 (codes "script" ++ (codes "done" ++ [])))
    × (copy_output both (codes "script" ∷ codes "done" ∷ []) none asked
        ≡ (none, info_all both lines asked))
copy_output-open_blog_example =
    copy_output-open_blog (host outside) old_server stderr with_api 0 start asked asked both
      (codes "script" ∷ codes "done" ∷ []) (λ records r. refl) refl both_opened

abbrev no_logs : Options
no_logs = record with_api { no_startup_logs = true }

nop_opened :
    open_blog (host outside) old_server stderr no_logs 0 start ≡ some (ok nop_logger, start)
unfolding open_blog base_log
nop_opened = refl

copy_output-no_startup_logs_example :
    copy_output nop_logger ((115 ∷ codes "cript") ∷ []) none start ≡ (some err_short_write, start)
copy_output-no_startup_logs_example =
    copy_output-no_startup_logs (host outside) old_server stderr no_logs 0 start start start
      nop_logger 115 (codes "cript") [] none refl nop_opened
