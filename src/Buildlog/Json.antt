-- ===== src/Buildlog/Json.antt =====
-- buildlog/json.go. The state of the encoder is what it has encoded, and `none` once `log` has panicked.
use envbox.Prelude.{ℕ, List, [], ◌∷◌, ◌++◌, Option, none, some, Bytes, codes, length, Error}
use envbox.Buildlog.Multi.{Logger}

pub record JsonLog : Type 0 where
  pub output : Bytes
  pub time : ℕ
  pub kind : Bytes

abbrev pub json_log_type_done : Bytes
json_log_type_done = codes "done"

abbrev pub json_log_type_info : Bytes
json_log_type_info = codes "info"

abbrev pub json_log_type_error : Bytes
json_log_type_error = codes "error"

-- What `json.Encoder` and `time.Now` answer behind the records.
pub record Encoder : Type 0 where
  pub encode : List JsonLog → JsonLog → Option Error
  pub now : List JsonLog → ℕ

-- The type and the output of a record made now, and `log` of it.
unfoldable pub json_log : Encoder → Bytes → Bytes → Option (List JsonLog) → Option (List JsonLog)
json_log e kind output none = none
json_log e kind output (some records) =
    let made : JsonLog = record { output = output; time = e.now records; kind = kind } in
    elim (e.encode records made) [ none ↦ some (records ++ made ∷ []) | some x ↦ none ]

unfoldable pub json_logger : Encoder → Logger (Option (List JsonLog))
unfolding json_log
json_logger e = record {
  info = json_log e json_log_type_info;
  error = json_log e json_log_type_error;
  close = λ s. (none, json_log e json_log_type_done [] s);
  write = λ p s. ((length p, none), json_log e json_log_type_info p s);
}
