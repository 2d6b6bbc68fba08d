-- ===== src/Ingest/Once.antt =====
-- A round of apps/control-plane/src/file_ingest.rs over the same files again.
use trunk_scope.Common.{
  ℕ, suc, ◌≡◌, refl, inl, inr, Bool, true, false, not, ◌&&◌, ◌||◌, Option, none, some, List, [],
  ◌∷◌, arith, ltb, if◌then◌else◌, Bool-cases, is_some, and_then, length, All, Text, text_eq_refl,
  id_eq, text_key,
}
use trunk_scope.Common.Clock.{Time}
use trunk_scope.Decoder.Event.{Conversions, StatusEvent}
use trunk_scope.Decoder.Convert.{Draws}
use trunk_scope.Decoder.Apply.{ingest_status_payload}
use trunk_scope.Ingest.{
  Sidecar, Parsers, Ingest, has_path, see, event_of_payload, ingest_file, ingest_files,
  ingest_round, read_payload, seen_if,
}

has_path-see : (path : Text) (seen : List Text) → has_path path (see path seen) ≡ true
has_path-see path seen = elim (Bool-cases (has_path path seen)) [
  | inl e ↦ rw (e, e) refl
  | inr e ↦ rw (e, text_eq_refl path) refl
]

has_path-see_other :
    (path other : Text) (seen : List Text)
    → has_path path seen ≡ true
    → has_path path (see other seen) ≡ true
has_path-see_other path other seen h = ground (arith, h)

parts : (a b : Bool) → (a && not b) ≡ true → (a ≡ true) × (b ≡ false)
parts a b h = (ground (arith, h), ground (arith, h))

module _ (x : Conversions) (parsers : Parsers) where
  -- A file that a round passes over: it is remembered, or new and without an event to read.
  abbrev is_settled : Sidecar → Ingest → Bool
  is_settled file v =
      has_path file.path v.seen
      || (file.new_enough
          && not (is_some (and_then file.payload (event_of_payload x parsers file.path))))

  read_event :
      (draws : Draws) (now : Time) (path : Text) (event : Option StatusEvent) (v : Ingest)
      → ((seen_if x parsers path v.seen (ingest_status_payload x draws now event v.state)).seen
          ≡ (if is_some event then see path v.seen else v.seen))
        × (is_some event ≡ false
            → seen_if x parsers path v.seen (ingest_status_payload x draws now event v.state) ≡ v)
  unfolding ingest_status_payload
  read_event draws now path none v = (refl, λ h. refl)
  read_event draws now path (some event) v = (refl, λ h. absurd (ground (arith, h)))

  read_payload_lem :
      (draws : Draws) (now : Time) (path : Text) (payload : Option Text) (v : Ingest)
      → ((read_payload x parsers draws now path payload v).seen ≡ (
          if is_some (and_then payload (event_of_payload x parsers path))
          then see path v.seen
          else v.seen))
        × (is_some (and_then payload (event_of_payload x parsers path)) ≡ false
            → read_payload x parsers draws now path payload v ≡ v)
  read_payload_lem draws now path none v = (refl, λ h. refl)
  read_payload_lem draws now path (some payload) v =
      read_event draws now path (event_of_payload x parsers path payload) v

  seen-ingest_file :
      (draws : Draws) (now : Time) (file : Sidecar) (v : Ingest)
      → ((ingest_file x parsers draws now file v).seen
          ≡ (if is_settled file v then v.seen else see file.path v.seen))
  unfolding ingest_file
  seen-ingest_file draws now file v = elim (Bool-cases (has_path file.path v.seen)) [
    | inl e ↦ rw (e, ingest_file) refl
    | inr e ↦ elim (Bool-cases file.new_enough) [
      | inl n ↦ ground (arith, e, n, (read_payload_lem draws now file.path file.payload v).0)
      | inr n ↦ rw (e, ingest_file, n) refl
    ]
  ]

  ingest_file_settled :
      (draws : Draws) (now : Time) (file : Sidecar) (v : Ingest)
      → is_settled file v ≡ true
      → ingest_file x parsers draws now file v ≡ v
  unfolding ingest_file
  ingest_file_settled draws now file v h = elim (Bool-cases (has_path file.path v.seen)) [
    | inl e ↦ rw (e, ingest_file) refl
    | inr e ↦
        let (n, k) =
          parts file.new_enough
            (is_some (and_then file.payload (event_of_payload x parsers file.path)))
            (ground (arith, h, e)) in
        rw (e, ingest_file, n) ((read_payload_lem draws now file.path file.payload v).1 k)
  ]

  settled-ingest_file :
      (draws : Draws) (now : Time) (file : Sidecar) (v : Ingest)
      → is_settled file (ingest_file x parsers draws now file v) ≡ true
  settled-ingest_file draws now file v = elim (Bool-cases (is_settled file v)) [
    | inl e ↦ rw (ingest_file_settled draws now file v e) e
    | inr e ↦ ground (arith, e, seen-ingest_file draws now file v, has_path-see file.path v.seen)
  ]

  settled_other :
      (draws : Draws) (now : Time) (file other : Sidecar) (v : Ingest)
      → is_settled file v ≡ true
      → is_settled file (ingest_file x parsers draws now other v) ≡ true
  settled_other draws now file other v h = elim (Bool-cases (is_settled other v)) [
    | inl e ↦ rw (ingest_file_settled draws now other v e) h
    | inr e ↦ ground (
      arith,
      h,
      e,
      seen-ingest_file draws now other v,
      has_path-see_other file.path other.path v.seen,
    )
  ]

  settled_others :
      (draws : ℕ → Draws) (n : ℕ) (now : Time) (file : Sidecar) (files : List Sidecar) (v : Ingest)
      → is_settled file v ≡ true
      → is_settled file (ingest_files x parsers draws n now files v) ≡ true
  unfolding ingest_files
  settled_others draws n now file [] v h = h
  settled_others draws n now file (other ∷ files) v h =
      settled_others draws (suc n) now file files (ingest_file x parsers (draws n) now other v)
        (settled_other (draws n) now file other v h)

  settled_files :
      (draws : ℕ → Draws) (n : ℕ) (now : Time) (files : List Sidecar) (v : Ingest)
      → All (λ file. is_settled file (ingest_files x parsers draws n now files v) ≡ true) files
  unfolding ingest_files
  settled_files draws n now [] v = tt
  settled_files draws n now (file ∷ files) v = (
    settled_others draws (suc n) now file files (ingest_file x parsers (draws n) now file v)
        (settled-ingest_file (draws n) now file v),
    settled_files draws (suc n) now files (ingest_file x parsers (draws n) now file v),
  )

  ingest_files_settled :
      (draws : ℕ → Draws) (n : ℕ) (now : Time) (files : List Sidecar) (v : Ingest)
      → All (λ file. is_settled file v ≡ true) files
      → ingest_files x parsers draws n now files v ≡ v
  unfolding ingest_files
  ingest_files_settled draws n now [] v h = refl
  ingest_files_settled draws n now (file ∷ files) v (k, h) =
      rw (ingest_file_settled (draws n) now file v k)
        (ingest_files_settled draws (suc n) now files v h)

-- A round over the same files again, at whatever moment, changes nothing, neither the state nor
-- what is remembered, as long as at most 10,000 files are.
pub ingest_round-again :
    (x : Conversions) (parsers : Parsers) (draws later_draws : ℕ → Draws) (now later : Time)
    (files : List Sidecar) (v : Ingest)
    → ltb 10000 (length (ingest_files x parsers draws 0 now files v).seen) ≡ false
    → ingest_round x parsers later_draws later files (ingest_round x parsers draws now files v)
      ≡ ingest_round x parsers draws now files v
unfolding ingest_round
ingest_round-again x parsers draws later_draws now later files v h = rw h (
    rw
      (ingest_files_settled x parsers later_draws 0 later files
        (ingest_files x parsers draws 0 now files v) (settled_files x parsers draws 0 now files v))
      (rw h refl))
