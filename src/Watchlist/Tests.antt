-- ===== src/Watchlist/Tests.antt =====
-- A watchlist of three symbols, two of them the same.
use cyp_agent.Base.{
  Any, All, ℕ, ◌-◌, ◌&&◌, leb, if◌then◌else◌, true, ◌≡◌, refl, List, [], ◌∷◌, Text, codes,
  trim_left, trim_space,
}
use cyp_agent.Watchlist.{
  watchlist, word_of, after_word, matches_settlement, matches_quote, matches_symbol, has_suffix,
  without_spaces, has_seen, clean_symbol, normalize_symbols, normalize_runtime_watchlist,
}
use cyp_agent.Watchlist.Complete.{normalize_runtime_watchlist_complete}
use cyp_agent.Watchlist.Symbols.{IsWatchlist, normalize_runtime_watchlist-IsWatchlist}

-- `ToUpper` on ASCII letters.
abbrev ascii_upper : ℕ → ℕ
ascii_upper c = if leb b'a' c && leb c b'z' then c - 32 else c

abbrev asked : List Text
asked = codes " btc/usdt:usdt" ∷ codes "ETH/USDT:USDT" ∷ codes "BTC/USDT :USDT" ∷ []

abbrev kept : List Text
kept = codes "BTC/USDT:USDT" ∷ codes "ETH/USDT:USDT" ∷ []

asked_kept : normalize_runtime_watchlist ascii_upper asked true ≡ watchlist kept
unfolding normalize_runtime_watchlist normalize_symbols clean_symbol has_seen without_spaces
    has_suffix matches_symbol matches_quote matches_settlement after_word word_of trim_left
    trim_space
asked_kept = refl

normalize_runtime_watchlist-IsWatchlist_example : IsWatchlist true kept
normalize_runtime_watchlist-IsWatchlist_example =
    normalize_runtime_watchlist-IsWatchlist ascii_upper asked true kept asked_kept

normalize_runtime_watchlist_complete_example :
    All (λ raw. Any (λ entry. clean_symbol ascii_upper raw ≡ entry) kept) asked
normalize_runtime_watchlist_complete_example =
    normalize_runtime_watchlist_complete ascii_upper asked true kept asked_kept
