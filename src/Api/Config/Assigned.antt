-- ===== src/Api/Config/Assigned.antt =====
-- Which receiver the decoder's configuration of apps/control-plane/src/api.rs gives a system to.
use trunk_scope.Common.{
  ◌≡◌, refl, ap, ◌∙◌, inl, inr, Bool, true, false, not, ◌&&◌, Option, some, List, [], ◌∷◌, arith,
  ◌==◌, if◌then◌else◌, ==_iff, Bool-cases, Option-cases, unwrap_or, length, any, retain, is_empty,
  id_eq, text_key,
}
use mathlib.Core.Path.{fun_ext, subst}
use trunk_scope.Domain.{Uuid, Receiver}
use trunk_scope.State.Profiles.{SystemProfile}
use trunk_scope.Api.Tuning.{systems_for_receiver}

abbrev pub is_receiver : Uuid → Receiver → Bool
is_receiver id receiver = receiver.id == id

-- No two receivers have one id.
abbrev pub IsDistinct : List Receiver → Type 0
IsDistinct [] = Unit
IsDistinct (receiver ∷ rest) = (any (is_receiver receiver.id) rest ≡ false) × IsDistinct rest

-- `systems_for_receiver` gives the system to the receiver.
abbrev pub is_given : Option Uuid → SystemProfile → Receiver → Bool
is_given default system receiver =
    not (is_empty (systems_for_receiver receiver.id default (system ∷ [])))

count_none :
    (id : Uuid) (receivers : List Receiver)
    → any (is_receiver id) receivers ≡ false
    → length (retain (is_receiver id) receivers) ≡ 0
count_none id [] h = refl
count_none id (r ∷ receivers) h = ground (arith, count_none id receivers)

count_one :
    (id : Uuid) (receivers : List Receiver)
    → IsDistinct receivers
    → length (retain (is_receiver id) receivers) ≡ (if any (is_receiver id) receivers then 1 else 0)
count_one id [] h = refl
count_one id (r ∷ receivers) (p, h) = elim (Bool-cases (r.id == id)) [
  | inl e ↦
      let same : r.id ≡ id = (==_iff r.id id).0 e in
      let once : any (is_receiver id) receivers ≡ false =
        subst (λ i. any (is_receiver i) receivers ≡ false) same p in
      ground (arith, e, count_none id receivers once)
  | inr e ↦ rw e (count_one id receivers h)
]

count_nothing : (receivers : List Receiver) → length (retain (λ r. false) receivers) ≡ 0
count_nothing [] = refl
count_nothing (r ∷ receivers) = count_nothing receivers

count_if :
    (enabled : Bool) (id : Uuid) (receivers : List Receiver)
    → IsDistinct receivers
    → length (retain (λ r. enabled && is_receiver id r) receivers)
      ≡ (if enabled && any (is_receiver id) receivers then 1 else 0)
count_if true id receivers h = count_one id receivers h
count_if false id receivers h = count_nothing receivers

is_given-cases :
    (first : Uuid) (system : SystemProfile) (receiver : Receiver)
    → is_given (some first) system receiver
      ≡ (system.enabled && is_receiver (unwrap_or system.receiver_id first) receiver)
unfolding systems_for_receiver
is_given-cases first system receiver = elim (Option-cases system.receiver_id) [
  | inl e ↦ rw e (ground arith)
  | inr (id, e) ↦ rw e (ground arith)
]

-- The receiver that a system asks for, or else the first one.
abbrev pub wanted : Uuid → SystemProfile → Uuid
wanted first system = unwrap_or system.receiver_id first

-- Among enabled receivers with distinct ids an enabled system is given to exactly one, the one that
-- it names or, if it names none, the first. An enabled system that names another receiver, and a
-- disabled one, is given to none.
pub systems_for_receiver-one :
    (first : Receiver) (rest : List Receiver) (system : SystemProfile)
    → IsDistinct (first ∷ rest)
    → length (retain (is_given (some first.id) system) (first ∷ rest)) ≡ (
        if system.enabled && any (is_receiver (wanted first.id system)) (first ∷ rest)
        then 1
        else 0)
systems_for_receiver-one first rest system h =
    let receivers = first ∷ rest in
    let same : is_given (some first.id) system
        ≡ (λ r. system.enabled && is_receiver (wanted first.id system) r) =
      fun_ext (is_given-cases first.id system) in
    ap (λ p. length (retain p receivers)) same
    ∙ count_if system.enabled (wanted first.id system) receivers h
