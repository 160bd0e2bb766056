-- ===== src/Dockerutil/Image/Events.antt =====
-- `processImagePullEvents` of dockerutil/image.go: which events the progress function gets.
use envbox.Prelude.{
  ◌≡◌, refl, sym, ◌∙◌, List, [], ◌∷◌, ◌++◌, Option, none, some, codes, Error, wrap, ap,
  Option-cases, inl, inr,
}
use envbox.Dockerutil.Image.{
  ImagePullEvent, Message, Stream, set_to, decode_into, zero_event, event_loop,
  process_image_pull_events,
}

-- The last value that a field has in the messages, or the one given where none of them has the field.
abbrev pub latest {ℓ} : {A : Type ℓ} → (Message → Option A) → A → List Message → A
latest field value [] = value
latest field value (m ∷ ms) = elim (field m) [
  | none ↦ latest field value ms
  | some new ↦ latest field new ms
]

-- The event of the last of the messages: a field has the last value that any of them has for it.
abbrev pub event_of : List Message → ImagePullEvent
event_of ms = record {
  status = latest (λ m. m.status) [] ms;
  error = latest (λ m. m.error) [] ms;
  progress = latest (λ m. m.progress) [] ms;
  current = latest (λ m. m.current) 0 ms;
  total = latest (λ m. m.total) 0 ms;
}

-- The events of the messages behind those seen.
abbrev pub events_of : List Message → List Message → List ImagePullEvent
events_of seen [] = []
events_of seen (m ∷ ms) = event_of (seen ++ m ∷ []) ∷ events_of (seen ++ m ∷ []) ms

latest-cons {ℓ} :
    {A : Type ℓ} (field : Message → Option A) (value : A) (x : Message) (ms : List Message)
    → latest field value (x ∷ ms) ≡ latest field (set_to value (field x)) ms
latest-cons field value x ms = elim (Option-cases (field x)) [
  | inl e ↦ rw (latest, e) refl
  | inr (new, e) ↦ rw (latest, e) refl
]

latest-snoc {ℓ} :
    {A : Type ℓ} (field : Message → Option A) (value : A) (ms : List Message) (m : Message)
    → set_to (latest field value ms) (field m) ≡ latest field value (ms ++ m ∷ [])
latest-snoc field value [] m = elim (Option-cases (field m)) [
  | inl e ↦ rw e refl
  | inr (new, e) ↦ rw e refl
]
latest-snoc field value (x ∷ ms) m =
    ap (λ v. set_to v (field m)) (latest-cons field value x ms)
    ∙ latest-snoc field (set_to value (field x)) ms m
    ∙ sym (latest-cons field value x (ms ++ m ∷ []))

-- The next event is the one before with the fields that the next message has.
decode_into-event_of :
    (seen : List Message) (m : Message) → decode_into (event_of seen) m ≡ event_of (seen ++ m ∷ [])
unfolding decode_into
decode_into-event_of seen m = cc (
  latest-snoc (λ x. x.status) [] seen m,
  latest-snoc (λ x. x.error) [] seen m,
  latest-snoc (λ x. x.progress) [] seen m,
  latest-snoc (λ x. x.current) 0 seen m,
  latest-snoc (λ x. x.total) 0 seen m,
)

-- The events of the loop, each decoded into the one before.
abbrev events_after : ImagePullEvent → List Message → List ImagePullEvent
events_after event [] = []
events_after event (m ∷ ms) = decode_into event m ∷ events_after (decode_into event m) ms

events_after-events_of :
    (seen ms : List Message) → events_after (event_of seen) ms ≡ events_of seen ms
events_after-events_of seen [] = refl
events_after-events_of seen (m ∷ ms) =
    let next = decode_into-event_of seen m in
    ap (λ e. e ∷ events_after e ms) next
    ∙ ap (λ es. event_of (seen ++ m ∷ []) ∷ es) (events_after-events_of (seen ++ m ∷ []) ms)

-- How a stream ends.
abbrev pub end_of : Option Error → Option Error
end_of none = none
end_of (some e) = some (wrap (codes "decode image pull output") e)

module _ {World : Type 0} (fn : ImagePullEvent → World → Option Error × World) where
  -- The function called with whole events, in order, up to its first error.
  abbrev pub report : Option Error → List ImagePullEvent → World → Option Error × World
  report failed [] w = (end_of failed, w)
  report failed (event ∷ events) w = elim (fn event w).0 [
    | some e ↦ (some (wrap (codes "process image pull event") e), (fn event w).1)
    | none ↦ report failed events (fn event w).1
  ]

  first_then :
      (failed : Option Error) (event : ImagePullEvent) (m : Message) (w : World)
      {a b : Option Error × World}
      → a ≡ b
      → elim (fn (decode_into event m) w).0 as (λ _. Option Error × World) [
        | some e ↦
            (some (wrap (codes "process image pull event") e), (fn (decode_into event m) w).1)
        | none ↦ a
      ]
        ≡ elim (fn (decode_into event m) w).0 as (λ _. Option Error × World) [
          | some e ↦
              (some (wrap (codes "process image pull event") e), (fn (decode_into event m) w).1)
          | none ↦ b
        ]
  first_then failed event m w h =
      ap
        (λ r. elim (fn (decode_into event m) w).0 as (λ _. Option Error × World) [
          | some e ↦
              (some (wrap (codes "process image pull event") e), (fn (decode_into event m) w).1)
          | none ↦ r
        ])
        h

  event_loop-report :
      (failed : Option Error) (ms : List Message) (event : ImagePullEvent) (w : World)
      → event_loop fn failed ms event w ≡ report failed (events_after event ms) w
  unfolding event_loop
  event_loop-report none [] event w = refl
  event_loop-report (some e) [] event w = refl
  event_loop-report none (m ∷ ms) event w =
      first_then none event m w (event_loop-report none ms _ _)
  event_loop-report (some e) (m ∷ ms) event w =
      first_then (some e) event m w (event_loop-report (some e) ms _ _)

-- One round: what is true behind the call stays true behind the rest.
result_keeps {ℓ} :
    {World : Type 0} (P : World → Type ℓ) (r rest : Option Error × World)
    → P r.1
    → (P r.1 → P rest.1)
    → P
        (elim r.0 as (λ _. Option Error × World) [
          | some e ↦ (some (wrap (codes "process image pull event") e), r.1)
          | none ↦ rest
        ]).1
result_keeps P (some e, w) rest h more = h
result_keeps P (none, w) rest h more = more h

loop_keeps {ℓ} :
    {World : Type 0} (fn : ImagePullEvent → World → Option Error × World) (P : World → Type ℓ)
    → ((event : ImagePullEvent) (w : World) → P w → P (fn event w).1)
    → (failed : Option Error) (ms : List Message) (event : ImagePullEvent) (w : World) → P w
    → P (event_loop fn failed ms event w).1
unfolding event_loop
loop_keeps fn P kept none [] event w h = h
loop_keeps fn P kept (some e) [] event w h = h
loop_keeps fn P kept none (m ∷ ms) event w h =
    let event' = decode_into event m in
    result_keeps P (fn event' w) (event_loop fn none ms event' (fn event' w).1) (kept event' w h)
      (loop_keeps fn P kept none ms event' (fn event' w).1)
loop_keeps fn P kept (some x) (m ∷ ms) event w h =
    let event' = decode_into event m in
    result_keeps P (fn event' w) (event_loop fn (some x) ms event' (fn event' w).1)
      (kept event' w h) (loop_keeps fn P kept (some x) ms event' (fn event' w).1)

-- What the progress function keeps true of the world is true behind the stream.
pub process_image_pull_events_keeps {ℓ} :
    {World : Type 0} (fn : ImagePullEvent → World → Option Error × World) (P : World → Type ℓ)
    → ((event : ImagePullEvent) (w : World) → P w → P (fn event w).1)
    → (rd : Stream) (w : World) → P w
    → P (process_image_pull_events rd (some fn) w).1
unfolding process_image_pull_events
process_image_pull_events_keeps fn P kept rd w h =
    loop_keeps fn P kept rd.failed rd.messages zero_event w h

-- A progress function gets one event for each message, in order, up to its first error. All messages
-- are decoded into one variable: of each field, an event has the last value that its own message or any
-- before it has, and the zero value where none of them has the field. A stream that ends with an error makes
-- the result an error.
pub process_image_pull_events_lem :
    {World : Type 0} (fn : ImagePullEvent → World → Option Error × World) (rd : Stream) (w : World)
    → process_image_pull_events rd (some fn) w ≡ report fn rd.failed (events_of [] rd.messages) w
unfolding process_image_pull_events
process_image_pull_events_lem fn rd w =
    event_loop-report fn rd.failed rd.messages zero_event w
    ∙ ap (λ es. report fn rd.failed es w) (events_after-events_of [] rd.messages)
