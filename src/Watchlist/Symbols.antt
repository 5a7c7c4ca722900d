-- ===== src/Watchlist/Symbols.antt =====
-- What a watchlist holds that `normalizeRuntimeWatchlist` lets through.
use mathlib.Core.Path.{subst}
use cyp_agent.Base.{
  ℕ, suc, ◌&&◌, not, if◌then◌else◌, append-nil, ap₂, ◌∙◌, ◌≤◌, ◌≡◌, ◌≢◌, refl, ap, Bool, true,
  false, ◌⊎◌, inl, inr, List, [], ◌∷◌, ◌++◌, arith, All, Text, text_eq→eq, text_eq_apart, codes,
  length,
}
use cyp_agent.Watchlist.{
  invalid_symbol, not_perpetual, watchlist, Normalized, WatchlistError, refused, nonempty, keep,
  is_word_char, word_of, after_word, sized, matches_settlement, matches_quote, matches_symbol,
  has_suffix, has_seen, clean_symbol, normalize_symbols, normalize_runtime_watchlist,
}

-- A word of 2 to `most` capital letters and digits.
pub record IsWord (most : ℕ) (word : Text) : Type 0 where
  pub chars : All (λ c. is_word_char c ≡ true) word
  pub at_least : 2 ≤ length word
  pub at_most : length word ≤ most

-- BASE/QUOTE or BASE/QUOTE:SETTLEMENT.
pub record IsSymbol (symbol : Text) : Type 0 where
  pub base : Text
  pub quote : Text
  pub settlement : Text
  pub base_word : IsWord 20 base
  pub quote_word : IsWord 12 quote
  pub shape :
      (symbol ≡ base ++ (b'/' ∷ quote))
      ⊎ (IsWord 12 settlement × (symbol ≡ base ++ (b'/' ∷ (quote ++ (b':' ∷ settlement)))))

-- No symbol stands in the list twice.
abbrev pub Unique : List Text → Type 0
Unique [] = Unit
Unique (symbol ∷ rest) = All (λ other. other ≢ symbol) rest × Unique rest

word_of-append : (s : Text) → s ≡ word_of s ++ after_word s
unfolding word_of after_word
word_of-append [] = refl
word_of-append (c ∷ s) = ground (arith, word_of-append s)

word_of-chars : (s : Text) → All (λ c. is_word_char c ≡ true) (word_of s)
unfolding word_of
word_of-chars [] = tt
word_of-chars (c ∷ s) = ground (arith, word_of-chars s)

word_of-IsWord : (most : ℕ) (s : Text) → sized most (word_of s) ≡ true → IsWord most (word_of s)
word_of-IsWord most s h = record {
  chars = word_of-chars s;
  at_least = ground arith;
  at_most = ground arith;
}

word_of-whole : (s : Text) → after_word s ≡ [] → s ≡ word_of s
word_of-whole s ends =
    word_of-append s ∙ (ap (λ rest. word_of s ++ rest) ends ∙ append-nil (word_of s))

abbrev IsSettled : Text → Type 0
IsSettled s = (s ≡ []) ⊎ ((word : Text) × IsWord 12 word × (s ≡ b':' ∷ word))

matches_settlement-IsSettled : (s : Text) → matches_settlement s ≡ true → IsSettled s
unfolding matches_settlement
matches_settlement-IsSettled [] h = inl refl
matches_settlement-IsSettled (c ∷ s) h =
    let first : c ≡ b':' = ground arith in
    let ends : after_word s ≡ [] = text_eq→eq (after_word s) [] (ground arith) in
    inr (
      word_of s,
      word_of-IsWord 12 s (ground arith),
      ap₂ (λ d t. d ∷ t) first (word_of-whole s ends),
    )

abbrev IsQuoted : Text → Type 0
IsQuoted s =
    (word : Text) × (rest : Text) × IsWord 12 word × IsSettled rest × (s ≡ b'/' ∷ (word ++ rest))

matches_quote-IsQuoted : (s : Text) → matches_quote s ≡ true → IsQuoted s
unfolding matches_quote
matches_quote-IsQuoted [] h = ground arith
matches_quote-IsQuoted (c ∷ s) h =
    let first : c ≡ b'/' = ground arith in
    (
      word_of s,
      after_word s,
      word_of-IsWord 12 s (ground arith),
      matches_settlement-IsSettled (after_word s) (ground arith),
      ap₂ (λ d t. d ∷ t) first (word_of-append s),
    )

pub matches_symbol-IsSymbol : (s : Text) → matches_symbol s ≡ true → IsSymbol s
unfolding matches_symbol
matches_symbol-IsSymbol s h =
    let (word, rest, quoted, settled, e) = matches_quote-IsQuoted (after_word s) (ground arith) in
    let based = word_of-IsWord 20 s (ground arith) in
    let parts = word_of-append s ∙ ap (λ t. word_of s ++ t) e in
    elim settled [
      | inl none_left ↦ record {
        base = word_of s;
        quote = word;
        settlement = [];
        base_word = based;
        quote_word = quoted;
        shape = inl (
            parts
            ∙ ap (λ t. word_of s ++ (b'/' ∷ t)) (ap (λ t. word ++ t) none_left ∙ append-nil word));
      }
      | inr (settled_in, settled_word, f) ↦ record {
        base = word_of s;
        quote = word;
        settlement = settled_in;
        base_word = based;
        quote_word = quoted;
        shape = inr (settled_word, parts ∙ ap (λ t. word_of s ++ (b'/' ∷ (word ++ t))) f);
      }
    ]

abbrev pub IsAllowed : Bool → Text → Type 0
IsAllowed perpetual symbol =
    IsSymbol symbol × (perpetual ≡ true → has_suffix symbol (codes "/USDT:USDT") ≡ true)

-- What the loop returns, having seen `seen`.
pub record IsKept (perpetual : Bool) (seen : List Text) (most : ℕ) (result : List Text)
    : Type 0 where
  pub good : All (IsAllowed perpetual) result
  pub fresh : All (λ symbol. has_seen symbol seen ≡ false) result
  pub unique : Unique result
  pub size : length result ≤ most

fresh_seen :
    (symbol : Text) (seen result : List Text)
    → All (λ other. has_seen other (symbol ∷ seen) ≡ false) result
    → All (λ other. has_seen other seen ≡ false) result × All (λ other. other ≢ symbol) result
unfolding has_seen
fresh_seen symbol seen [] h = (tt, tt)
fresh_seen symbol seen (other ∷ result) h =
    let (e, more) = h in
    let (f, g) = fresh_seen symbol seen result more in
    ((ground arith, f), (text_eq_apart other symbol (ground arith), g))

pub watchlist_eq : (xs ys : List Text) → watchlist xs ≡ watchlist ys → xs ≡ ys
watchlist_eq xs ys e = cc

-- The guards of the loop, when it goes on.
pub passes_guards :
    (matches perpetual suffixed : Bool) (wrong other : WatchlistError) (rest : Normalized)
    (result : List Text)
    → (if not matches
        then refused wrong
        else if perpetual && not suffixed
        then refused other
        else rest)
      ≡ watchlist result
    → (matches ≡ true) × (perpetual ≡ true → suffixed ≡ true) × (rest ≡ watchlist result)
passes_guards matches perpetual suffixed wrong other rest result h =
    (ground arith, ground arith, ground arith)

module _ (perpetual : Bool) where
  keep-IsKept :
      (seen : List Text) (symbol : Text) (n : ℕ) (rest : Normalized) (result : List Text)
      → IsAllowed perpetual symbol
      → has_seen symbol seen ≡ false
      → ((kept : List Text) → rest ≡ watchlist kept → IsKept perpetual (symbol ∷ seen) n kept)
      → keep symbol rest ≡ watchlist result
      → IsKept perpetual seen (suc n) result
  keep-IsKept seen symbol n (refused reason) result good new tail h = cc
  keep-IsKept seen symbol n (watchlist kept) result good new tail h =
      let old = tail kept refl in
      let (fresh, apart) = fresh_seen symbol seen kept old.fresh in
      subst (IsKept perpetual seen (suc n)) (watchlist_eq (symbol ∷ kept) result h) (record {
        good = (good, old.good);
        fresh = (new, fresh);
        unique = (apart, old.unique);
        size = let s = old.size in omega arith;
      })

  step-IsKept :
      (run : List Text → Normalized) (n : ℕ) (seen : List Text) (symbol : Text) (result : List Text)
      → IsAllowed perpetual symbol
      → ((before kept : List Text) → run before ≡ watchlist kept → IsKept perpetual before n kept)
      → (known : Bool) → has_seen symbol seen ≡ known
      → (if known
          then run (if known then seen else symbol ∷ seen)
          else keep symbol (run (if known then seen else symbol ∷ seen)))
        ≡ watchlist result
      → IsKept perpetual seen (suc n) result
  step-IsKept run n seen symbol result good tail true k h =
      let old = tail seen result h in
      record {
        good = old.good;
        fresh = old.fresh;
        unique = old.unique;
        size = let s = old.size in omega arith;
      }
  step-IsKept run n seen symbol result good tail false k h =
      keep-IsKept seen symbol n (run (symbol ∷ seen)) result good k (tail (symbol ∷ seen)) h

  normalize_symbols-IsKept :
      (upper : ℕ → ℕ) (source seen result : List Text)
      → normalize_symbols upper perpetual seen source ≡ watchlist result
      → IsKept perpetual seen (length source) result
  unfolding normalize_symbols
  normalize_symbols-IsKept upper [] seen result h =
      subst (IsKept perpetual seen 0) (watchlist_eq [] result h)
        (record { good = tt; fresh = tt; unique = tt; size = omega arith })
  normalize_symbols-IsKept upper (raw ∷ source) seen result h =
      let symbol = clean_symbol upper raw in
      let known = has_seen symbol seen in
      let run : List Text → Normalized =
        λ before. normalize_symbols upper perpetual before source in
      let (matched, suffixed, e) =
        passes_guards (matches_symbol symbol) perpetual (has_suffix symbol (codes "/USDT:USDT"))
          (invalid_symbol raw) not_perpetual
          (if known
            then run (if known then seen else symbol ∷ seen)
            else keep symbol (run (if known then seen else symbol ∷ seen)))
          result h in
      step-IsKept run (length source) seen symbol result
        (matches_symbol-IsSymbol symbol matched, suffixed) (normalize_symbols-IsKept upper source)
        known refl e

pub nonempty_lem :
    (loop : Normalized) (result : List Text)
    → nonempty loop ≡ watchlist result
    → (loop ≡ watchlist result) × (1 ≤ length result)
nonempty_lem (watchlist []) result h = cc
nonempty_lem (watchlist (symbol ∷ rest)) result h =
    (h, subst (λ xs. 1 ≤ length xs) (watchlist_eq (symbol ∷ rest) result h) (omega arith))
nonempty_lem (refused reason) result h = cc

-- What a watchlist is: one to twelve different symbols of the form BASE/QUOTE or
-- BASE/QUOTE:SETTLEMENT, on OKX all ending in /USDT:USDT.
pub record IsWatchlist (perpetual : Bool) (symbols : List Text) : Type 0 where
  pub good : All (IsAllowed perpetual) symbols
  pub unique : Unique symbols
  pub at_least : 1 ≤ length symbols
  pub at_most : length symbols ≤ 12

pub passes_size :
    (upper : ℕ → ℕ) (source : List Text) (perpetual : Bool) (result : List Text)
    → normalize_runtime_watchlist upper source perpetual ≡ watchlist result
    → (length source ≤ 12)
      × (nonempty (normalize_symbols upper perpetual [] source) ≡ watchlist result)
unfolding normalize_runtime_watchlist
passes_size upper source perpetual result h = (ground arith, ground arith)

-- Whatever a settings update asks for, a list that `normalizeRuntimeWatchlist` returns holds one to
-- twelve symbols, no two of them equal, each a base of 2 to 20 capitals and digits, a slash, a quote
-- of 2 to 12 and perhaps a colon and a settlement of 2 to 12; and where a perpetual of OKX is
-- required, each ends in /USDT:USDT.
pub normalize_runtime_watchlist-IsWatchlist :
    (upper : ℕ → ℕ) (source : List Text) (perpetual : Bool) (result : List Text)
    → normalize_runtime_watchlist upper source perpetual ≡ watchlist result
    → IsWatchlist perpetual result
normalize_runtime_watchlist-IsWatchlist upper source perpetual result h =
    let (small, e) = passes_size upper source perpetual result h in
    let (loop, some_left) = nonempty_lem (normalize_symbols upper perpetual [] source) result e in
    let kept = normalize_symbols-IsKept perpetual upper source [] result loop in
    record {
      good = kept.good;
      unique = kept.unique;
      at_least = some_left;
      at_most = let s = kept.size in omega arith;
    }
