-- ===== src/Enrichment/Evidence.antt =====
-- The checks on a model's answer, validated_result of apps/control-plane/src/enrichment.rs.
use trunk_scope.Common.{
  ℕ, zero, suc, ◌+◌, ◌≤◌, ◌≡◌, refl, inl, inr, Bool, true, false, not, Option, none, some, [], ◌∷◌,
  arith, Bool-cases, Option-cases, or_else, filter_some, and_then, length, take, drop, Text, codes,
  text_eq, text_eq_refl, is_empty, trim, starts_with, find_text, id_eq, text_key,
}
use trunk_scope.Common.Json.{
  Json, Items, Members, string, number, array, object, end, item, find_member,
  find_member-put_member, null, boolean, as_str, get_key,
}
use trunk_scope.Enrichment.{
  Values, failure, and_span, evidence_of, parse_result, span_of, Checked, verified, rejected,
  quote_in, verify, with_checked, is_complete, check_evidence, validated_result,
}

starts_with-take :
    (p s : Text) → starts_with p s ≡ true → (take (length p) s ≡ p) × (length p ≤ length s)
unfolding starts_with
starts_with-take [] s h = (refl, omega arith)
starts_with-take (c ∷ p) [] h = cc
starts_with-take (c ∷ p) (d ∷ s) h =
    let first : c ≡ d = ground (arith, h) in
    let rest = starts_with-take p s (ground (arith, h)) in
    (rw (first, rest.0) refl, omega (arith, rest.1))

-- Where `find_text` finds a text, the text stands there.
find_text-take :
    (p s : Text) (i : ℕ)
    → find_text p s ≡ some i
    → (take (length p) (drop i s) ≡ p) × (i + length p ≤ length s)
unfolding find_text
find_text-take [] [] zero h = (refl, omega arith)
find_text-take [] [] (suc i) h = ground (arith, h)
find_text-take (b ∷ p) [] i h = cc
find_text-take p (c ∷ s) zero h = elim (Bool-cases (starts_with p (c ∷ s))) [
  | inl e ↦ ground (arith, starts_with-take p (c ∷ s) e)
  | inr e ↦ ground (arith, e, h)
]
find_text-take p (c ∷ s) (suc i) h = elim (Bool-cases (starts_with p (c ∷ s))) [
  | inl e ↦ ground (arith, e, h)
  | inr e ↦ ground (arith, e, h, find_text-take p s i)
]

-- An item that quotes the transcript: the text is not blank and stands at its offsets.
abbrev pub IsQuote : Text → Json → Type 0
IsQuote transcript span =
    (quote : Text) × (start : ℕ) × (span ≡ span_of quote start)
    × (is_empty (trim quote) ≡ false)
    × (start + length quote ≤ length transcript)
    × (take (length quote) (drop start transcript) ≡ quote)

abbrev pub EveryItem : (Json → Type 0) → Items → Type 0
EveryItem P end = Unit
EveryItem P (item span spans) = P span × EveryItem P spans

abbrev Sound : Text → Checked → Type 0
Sound transcript (verified spans) = EveryItem (IsQuote transcript) spans
Sound transcript (rejected detail) = Unit

filter_some-holds :
    (p : Text → Bool) (o : Option Text) (t : Text) → filter_some p o ≡ some t → p t ≡ true
filter_some-holds p none t h = cc
filter_some-holds p (some u) t h = ground (arith, h)

Sound-and_span :
    (transcript : Text) (span : Json) (later : Checked)
    → IsQuote transcript span
    → Sound transcript later
    → Sound transcript (and_span span later)
Sound-and_span transcript span (verified spans) q h = (q, h)
Sound-and_span transcript span (rejected detail) q h = tt

verify-Sound : (transcript : Text) (spans : Items) → Sound transcript (verify transcript spans)
unfolding verify quote_in
verify-Sound transcript end = tt
verify-Sound transcript (item span spans) = elim (Option-cases (quote_in span)) [
  | inl e ↦ rw (e, verify) tt
  | inr (quote, e) ↦ elim (Option-cases (find_text quote transcript)) [
    | inl k ↦ rw (e, verify) (rw k tt)
    | inr (start, k) ↦
        let (stands, bound) = find_text-take quote transcript start k in
        let filled : not (is_empty (trim quote)) ≡ true =
          filter_some-holds (λ t. not (is_empty (trim t)))
            (or_else (as_str span) (and_then (get_key (codes "text") span) as_str)) quote e in
        rw (e, verify)
          (rw k (
            Sound-and_span transcript (span_of quote start) (verify transcript spans)
              (quote, start, refl, ground (arith, filled), bound, stands)
              (verify-Sound transcript spans)))
  ]
]

-- The state of an answer's evidence: one that counts as complete has an array of quotes.
abbrev HasQuotes : Text → Members → Type 0
HasQuotes transcript result =
    is_complete result ≡ true
    → (spans : Items) × (find_member (codes "evidence") result ≡ some (array spans))
      × EveryItem (IsQuote transcript) spans

is_complete-failure :
    (error detail raw model : Text) → is_complete (failure error detail raw model) ≡ false
unfolding find_member text_eq
is_complete-failure error detail raw model = refl

with_checked-HasQuotes :
    (raw model transcript : Text) (result : Members) (checked : Checked)
    → Sound transcript checked
    → HasQuotes transcript (with_checked raw model result checked)
unfolding find_member
with_checked-HasQuotes raw model transcript result (verified spans) h c = (
  spans,
  rw (find_member-put_member (codes "evidence") (codes "evidence") (array spans) result)
      (rw (text_eq_refl (codes "evidence"))),
  h,
)
with_checked-HasQuotes raw model transcript result (rejected detail) h c =
    absurd (ground (arith, is_complete-failure (codes "invalid-evidence") detail raw model, c))

not_array :
    (raw model transcript : Text)
    → HasQuotes transcript (
        failure
          (codes "invalid-evidence")
          (codes "Evidence must be an array of transcript quotes")
          raw
          model)
not_array raw model transcript c = absurd (
    ground (
      arith,
      is_complete-failure (codes "invalid-evidence")
          (codes "Evidence must be an array of transcript quotes") raw model,
      c,
    ))

check_evidence-HasQuotes :
    (raw model transcript : Text) (result : Members)
    → HasQuotes transcript (check_evidence raw model transcript result)
unfolding check_evidence
check_evidence-HasQuotes raw model transcript result = elim (Option-cases (evidence_of result)) [
  | inl e ↦
      rw (e, check_evidence) (with_checked-HasQuotes raw model transcript result (verified end) tt)
  | inr (array items, e) ↦
      rw (e, check_evidence)
        (with_checked-HasQuotes raw model transcript result (verify transcript items)
          (verify-Sound transcript items))
  | inr (null, e) ↦ rw (e, check_evidence) (not_array raw model transcript)
  | inr (boolean b, e) ↦ rw (e, check_evidence) (not_array raw model transcript)
  | inr (number n, e) ↦ rw (e, check_evidence) (not_array raw model transcript)
  | inr (string t, e) ↦ rw (e, check_evidence) (not_array raw model transcript)
  | inr (object m, e) ↦ rw (e, check_evidence) (not_array raw model transcript)
]

-- Every piece of evidence of an answer that counts as complete quotes the transcript: its text is
-- not blank, its offsets lie within the transcript, and the characters between them are the text.
pub validated_result-IsQuote :
    (w : Values) (raw model transcript : Text)
    → is_complete (validated_result w raw model transcript) ≡ true
    → (spans : Items) × (find_member (codes "evidence") (validated_result w raw model transcript)
        ≡ some (array spans))
      × EveryItem (IsQuote transcript) spans
unfolding validated_result
validated_result-IsQuote w raw model transcript =
    let result = parse_result w raw model in
    elim (Bool-cases (is_complete result)) [
      | inl e ↦ rw (e, validated_result) (check_evidence-HasQuotes raw model transcript result)
      | inr e ↦ rw (e, validated_result) (λ c. absurd (ground (arith, e, c)))
    ]
