-- ===== src/Watchlist.antt =====
-- internal/control/watchlist.go: the watchlist that a settings update may install.
-- `strings.ToUpper` is not code of the program: `upper` is its effect on one code point.
pub mod Complete
pub mod Symbols
mod Tests
use cyp_agent.Base.{
  ℕ, ◌-◌, Bool, true, false, ◌&&◌, ◌||◌, not, List, [], ◌∷◌, ◌==◌, leb, ltb, if◌then◌else◌, length,
  drop, map, Text, text_eq, codes, trim_space,
}

pub data WatchlistError : Type 0 where
  invalid_watchlist : WatchlistError
  invalid_symbol : Text → WatchlistError
  not_perpetual : WatchlistError

pub data Normalized : Type 0 where
  watchlist : List Text → Normalized
  refused : WatchlistError → Normalized

abbrev pub max_runtime_watchlist_size : ℕ
max_runtime_watchlist_size = 12

-- `[A-Z0-9]`.
abbrev pub is_word_char : ℕ → Bool
is_word_char c = (leb b'A' c && leb c b'Z') || (leb b'0' c && leb c b'9')

-- The longest run of such characters, and what follows it.
unfoldable pub word_of : Text → Text
word_of [] = []
word_of (c ∷ s) = let rest = word_of s in if is_word_char c then c ∷ rest else []

unfoldable pub after_word : Text → Text
after_word [] = []
after_word (c ∷ s) = let rest = after_word s in if is_word_char c then rest else c ∷ s

abbrev pub sized : ℕ → Text → Bool
sized most word = leb 2 (length word) && leb (length word) most

-- `(?::[A-Z0-9]{2,12})?$`.
unfoldable pub matches_settlement : Text → Bool
matches_settlement [] = true
matches_settlement (c ∷ s) = c == b':' && (sized 12 (word_of s) && text_eq (after_word s) [])

-- `/[A-Z0-9]{2,12}` and the settlement.
unfoldable pub matches_quote : Text → Bool
matches_quote [] = false
matches_quote (c ∷ s) = c == b'/' && (sized 12 (word_of s) && matches_settlement (after_word s))

-- `runtimeSymbolPattern.MatchString`: neither separator is a character of a word.
unfoldable pub matches_symbol : Text → Bool
matches_symbol s = sized 20 (word_of s) && matches_quote (after_word s)

-- `strings.HasSuffix`.
unfoldable pub has_suffix : Text → Text → Bool
has_suffix s suffix =
    leb (length suffix) (length s) && text_eq (drop (length s - length suffix) s) suffix

unfoldable pub without_spaces : Text → Text
without_spaces [] = []
without_spaces (c ∷ s) = let rest = without_spaces s in if c == 32 then rest else c ∷ rest

unfoldable pub has_seen : Text → List Text → Bool
has_seen symbol [] = false
has_seen symbol (other ∷ seen) = text_eq symbol other || has_seen symbol seen

-- `append` to the result, which an error drops.
abbrev pub keep : Text → Normalized → Normalized
keep symbol (watchlist rest) = watchlist (symbol ∷ rest)
keep symbol (refused reason) = refused reason

abbrev pub nonempty : Normalized → Normalized
nonempty (watchlist []) = refused invalid_watchlist
nonempty (watchlist (symbol ∷ rest)) = watchlist (symbol ∷ rest)
nonempty (refused reason) = refused reason

module _ (upper : ℕ → ℕ) where
  unfoldable pub clean_symbol : Text → Text
  clean_symbol raw = map upper (without_spaces (trim_space raw))

  -- The loop, with the symbols it has seen.
  unfoldable pub normalize_symbols : Bool → List Text → List Text → Normalized
  normalize_symbols perpetual seen [] = watchlist []
  normalize_symbols perpetual seen (raw ∷ source) =
      let symbol = clean_symbol raw in
      let known = has_seen symbol seen in
      let rest = normalize_symbols perpetual (if known then seen else symbol ∷ seen) source in
      if not (matches_symbol symbol)
      then refused (invalid_symbol raw)
      else if perpetual && not (has_suffix symbol (codes "/USDT:USDT"))
      then refused not_perpetual
      else if known
      then rest
      else keep symbol rest

  unfoldable pub normalize_runtime_watchlist : List Text → Bool → Normalized
  normalize_runtime_watchlist source perpetual =
      if length source == 0 || ltb max_runtime_watchlist_size (length source)
      then refused invalid_watchlist
      else nonempty (normalize_symbols perpetual [] source)
