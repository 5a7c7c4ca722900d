-- ===== src/Watchlist/Complete.antt =====
-- That `normalizeRuntimeWatchlist` drops none of the symbols that were asked for.
use mathlib.Core.Path.{subst}
use cyp_agent.Base.{
  codes, ℕ, ◌≡◌, refl, Bool, true, false, ◌||◌, List, [], ◌∷◌, arith, All, Any, here, there, Text,
  text_eq, text_eq→eq, text_eq_refl, Bool-cases, inl, inr, if◌then◌else◌,
}
use cyp_agent.Watchlist.Symbols.{watchlist_eq, passes_guards, passes_size, nonempty_lem}
use cyp_agent.Watchlist.{
  invalid_symbol, not_perpetual, matches_symbol, has_suffix, watchlist, Normalized, refused, keep,
  has_seen, clean_symbol, normalize_symbols, normalize_runtime_watchlist,
}

-- `symbol` was seen before, or is in the result.
abbrev IsFound : List Text → List Text → Text → Type 0
IsFound seen result symbol = (has_seen symbol seen || has_seen symbol result) ≡ true

-- A symbol that the loop has just kept counts as seen in its tail.
IsFound-kept :
    (seen result : List Text) (symbol other : Text)
    → IsFound (symbol ∷ seen) result other
    → IsFound seen (symbol ∷ result) other
unfolding has_seen
IsFound-kept seen result symbol other h = ground arith

IsFound-self : (seen result : List Text) (symbol : Text) → IsFound seen (symbol ∷ result) symbol
unfolding has_seen
IsFound-self seen result symbol = let e = text_eq_refl symbol in ground arith

module _ (clean : Text → Text) where
  abbrev AllFound : List Text → List Text → List Text → Type 0
  AllFound seen result source = All (λ raw. IsFound seen result (clean raw)) source

  all_kept :
      (seen result : List Text) (symbol : Text) (source : List Text)
      → AllFound (symbol ∷ seen) result source
      → AllFound seen (symbol ∷ result) source
  all_kept seen result symbol [] h = tt
  all_kept seen result symbol (raw ∷ source) (first, more) =
      (IsFound-kept seen result symbol (clean raw) first, all_kept seen result symbol source more)

  keep-AllFound :
      (seen : List Text) (symbol : Text) (rest : Normalized) (source result : List Text)
      → ((kept : List Text) → rest ≡ watchlist kept → AllFound (symbol ∷ seen) kept source)
      → keep symbol rest ≡ watchlist result
      → IsFound seen result symbol × AllFound seen result source
  keep-AllFound seen symbol (refused reason) source result tail h = cc
  keep-AllFound seen symbol (watchlist kept) source result tail h =
      subst (λ list. IsFound seen list symbol × AllFound seen list source)
        (watchlist_eq (symbol ∷ kept) result h)
        (IsFound-self seen kept symbol, all_kept seen kept symbol source (tail kept refl))

  step-AllFound :
      (run : List Text → Normalized) (seen : List Text) (symbol : Text) (source result : List Text)
      → ((before kept : List Text) → run before ≡ watchlist kept → AllFound before kept source)
      → (known : Bool) → has_seen symbol seen ≡ known
      → (if known
          then run (if known then seen else symbol ∷ seen)
          else keep symbol (run (if known then seen else symbol ∷ seen)))
        ≡ watchlist result
      → IsFound seen result symbol × AllFound seen result source
  step-AllFound run seen symbol source result tail true k h = (ground arith, tail seen result h)
  step-AllFound run seen symbol source result tail false k h =
      keep-AllFound seen symbol (run (symbol ∷ seen)) source result (tail (symbol ∷ seen)) h

module _ (upper : ℕ → ℕ) (perpetual : Bool) where
  normalize_symbols-AllFound :
      (source seen result : List Text)
      → normalize_symbols upper perpetual seen source ≡ watchlist result
      → AllFound (clean_symbol upper) seen result source
  unfolding normalize_symbols
  normalize_symbols-AllFound [] seen result h = tt
  normalize_symbols-AllFound (raw ∷ source) seen result h =
      let symbol = clean_symbol upper raw in
      let known = has_seen symbol seen in
      let run : List Text → Normalized =
        λ before. normalize_symbols upper perpetual before source in
      let (matched, suffixed, e) =
        passes_guards (matches_symbol symbol) perpetual (has_suffix symbol (codes "/USDT:USDT"))
          (invalid_symbol raw) not_perpetual
          (if known
            then run (if known then seen else symbol ∷ seen)
            else keep symbol (run (if known then seen else symbol ∷ seen)))
          result h in
      step-AllFound (clean_symbol upper) run seen symbol source result
        (normalize_symbols-AllFound source) known refl e

-- A symbol that the test finds is an entry of the list.
has_seen→Any :
    (symbol : Text) (list : List Text)
    → has_seen symbol list ≡ true
    → Any (λ entry. symbol ≡ entry) list
unfolding has_seen
has_seen→Any symbol [] h = cc
has_seen→Any symbol (other ∷ list) h = elim (Bool-cases (text_eq symbol other)) [
  | inl same ↦ here (text_eq→eq symbol other same)
  | inr apart ↦ there (has_seen→Any symbol list (rw apart at h))
]

AllFound→Any :
    (clean : Text → Text) (result source : List Text)
    → AllFound clean [] result source
    → All (λ raw. Any (λ entry. clean raw ≡ entry) result) source
unfolding has_seen
AllFound→Any clean result [] h = tt
AllFound→Any clean result (raw ∷ source) (first, more) =
    (has_seen→Any (clean raw) result first, AllFound→Any clean result source more)

-- A list that `normalizeRuntimeWatchlist` returns lacks none of the symbols that were asked for:
-- each, once its spaces are removed and its letters are capitals, equals an entry of the list.
pub normalize_runtime_watchlist_complete :
    (upper : ℕ → ℕ) (source : List Text) (perpetual : Bool) (result : List Text)
    → normalize_runtime_watchlist upper source perpetual ≡ watchlist result
    → All (λ raw. Any (λ entry. clean_symbol upper raw ≡ entry) result) source
normalize_runtime_watchlist_complete upper source perpetual result h =
    let (small, e) = passes_size upper source perpetual result h in
    let (loop, some_left) = nonempty_lem (normalize_symbols upper perpetual [] source) result e in
    AllFound→Any (clean_symbol upper) result source
      (normalize_symbols-AllFound upper perpetual source [] result loop)
