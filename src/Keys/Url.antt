-- ===== src/Keys/Url.antt =====
-- The `hs://` url: what `parse_url` cuts off, and what it says of the mode.
use holesail_cpp.Base.{
  ℕ, ◌<◌, ◌≡◌, ◌≢◌, ◌⊎◌, ◌==◌, true, false, if◌then◌else◌, none, some, ◌∷◌, ◌++◌, length, take,
  arith, Bytes, bytes_eq→eq, Option-cases, le→leb, get_elem?,
}
use holesail_cpp.Keys.{protocol, parse_url}

-- A url with the protocol and four characters of mode gives the key behind them, and is secure
-- exactly when the first of the four is `s`.
pub parse_url_prefixed :
    (m n p q : ℕ) (key : Bytes)
    → parse_url (protocol ++ (m ∷ n ∷ p ∷ q ∷ key))
      ≡ record { key = key; secure = if m == b's' then some true else none }
unfolding parse_url
parse_url_prefixed m n p q key =
    rw (le→leb 9 (length (protocol ++ (m ∷ n ∷ p ∷ q ∷ key))) (omega arith))

-- A string without the protocol, or too short for the mode, is the key as it stands.
pub parse_url_bare :
    (url : Bytes) → (take 5 url ≢ protocol) ⊎ (length url < 9) → (parse_url url).key ≡ url
unfolding parse_url
parse_url_bare url h = ground (arith, bytes_eq→eq (take 5 url) protocol)

-- The url never says that the link is public: `secure` is left open instead.
pub parse_url-secure-ne_false : (url : Bytes) → (parse_url url).secure ≢ some false
unfolding parse_url
parse_url-secure-ne_false url h = ground (arith, Option-cases (get_elem? url 5))
