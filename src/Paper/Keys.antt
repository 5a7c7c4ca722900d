-- ===== src/Paper/Keys.antt =====
-- internal/venue/paper.go: `positionKey`, and the maps with such keys.
use cyp_agent.Base.{
  ◌≡◌, ◌↔◌, refl, Bool, true, false, ◌&&◌, Option, none, some, List, [], ◌∷◌, arith, if◌then◌else◌,
  Text, text_eq, text_eq_iff, codes,
}
use cyp_agent.Models.{Instrument, spot, perp, other_instrument}

pub record Key : Type 0 where
  pub symbol : Text
  pub instrument : Instrument

abbrev pub same_instrument : Instrument → Instrument → Bool
same_instrument spot spot = true
same_instrument perp perp = true
same_instrument (other_instrument s) (other_instrument t) = text_eq s t
same_instrument _ _ = false

abbrev pub instrument_text : Instrument → Text
instrument_text spot = codes "spot"
instrument_text perp = codes "perp"
instrument_text (other_instrument s) = s

unfoldable pub key_eq : Key → Key → Bool
key_eq k j = text_eq k.symbol j.symbol && same_instrument k.instrument j.instrument

same_instrument→eq : (i j : Instrument) → same_instrument i j ≡ true → i ≡ j
same_instrument→eq spot spot h = refl
same_instrument→eq spot perp h = cc
same_instrument→eq spot (other_instrument t) h = cc
same_instrument→eq perp spot h = cc
same_instrument→eq perp perp h = refl
same_instrument→eq perp (other_instrument t) h = cc
same_instrument→eq (other_instrument s) spot h = cc
same_instrument→eq (other_instrument s) perp h = cc
same_instrument→eq (other_instrument s) (other_instrument t) h = ground (arith, text_eq_iff s t)

same_instrument_refl : (i : Instrument) → same_instrument i i ≡ true
same_instrument_refl spot = refl
same_instrument_refl perp = refl
same_instrument_refl (other_instrument s) = ground (arith, text_eq_iff s s)

pub key_eq_refl : (k : Key) → key_eq k k ≡ true
unfolding key_eq
key_eq_refl k = ground (arith, text_eq_iff k.symbol k.symbol, same_instrument_refl k.instrument)

pub key_eq→eq : (k j : Key) → key_eq k j ≡ true → k ≡ j
unfolding key_eq
key_eq→eq k j h =
    ground (arith, text_eq_iff k.symbol j.symbol, same_instrument→eq k.instrument j.instrument)

pub key_eq_iff : (k j : Key) → (key_eq k j ≡ true) ↔ (k ≡ j)
key_eq_iff k j = (key_eq→eq k j, λ e. rw e (key_eq_refl j))

abbrev pub KeyMap : Type 0 → Type 0
KeyMap V = List (Key × V)

module _ {V : Type 0} where
  unfoldable pub find : Key → KeyMap V → Option V
  find k [] = none
  find k ((j, v) ∷ m) = if key_eq j k then some v else find k m

  -- `m[k] = v`.
  unfoldable pub put : Key → V → KeyMap V → KeyMap V
  put k v [] = (k, v) ∷ []
  put k v ((j, w) ∷ m) = if key_eq j k then (j, v) ∷ m else (j, w) ∷ put k v m

  -- `delete(m, k)`.
  unfoldable pub remove : Key → KeyMap V → KeyMap V
  remove k [] = []
  remove k ((j, w) ∷ m) = let rest = remove k m in if key_eq j k then rest else (j, w) ∷ rest

  pub find-put :
      (k j : Key) (v : V) (m : KeyMap V)
      → find j (put k v m) ≡ (if key_eq k j then some v else find j m)
  unfolding find put
  find-put k j v [] = refl
  find-put k j v ((i, w) ∷ m) =
      ground (arith, key_eq_iff k j, key_eq_iff i k, key_eq_iff i j, find-put k j v m)

  pub find-remove :
      (k j : Key) (m : KeyMap V) → find j (remove k m) ≡ (if key_eq k j then none else find j m)
  unfolding find remove
  find-remove k j [] = ground arith
  find-remove k j ((i, w) ∷ m) =
      ground (arith, key_eq_iff k j, key_eq_iff i k, key_eq_iff i j, find-remove k j m)
