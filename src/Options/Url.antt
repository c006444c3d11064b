-- ===== src/Options/Url.antt =====
-- An upstream that is written as a URL is read back by `addUpstreamUrl` of src/options.c.
use ws_server.Base.{
  ℕ, zero, suc, ◌+◌, ◌/◌, ◌%◌, ◌^◌, ◌≤◌, ◌<◌, ◌≡◌, refl, ap, ◌∙◌, ◌⊎◌, Bool, true, false, Option,
  none, some, List, [], ◌∷◌, ◌++◌, append-nil, arith, ltb, ◌==◌, length, All, All-append,
  Bool-cases, inl, inr,
}
use ws_server.Agg.Json.{digits_onto, decimal}
use ws_server.Agg.Json.Bounds.{length-decimal}
use ws_server.Options.{
  ℤ, pos, UpstreamConfig, ServerConfig, upstream_host_max, upstream_path_max, url_prefix,
  after_prefix, split_first, split_last, split_path, split_authority, up_to, parse_port,
  ensure_upstream_capacity, check_upstream, parse_upstream, add_upstream_url,
}

-- No character of the text is `c`.
abbrev pub Lacks : ℕ → List ℕ → Type 0
Lacks c = All (λ x. (x == c) ≡ false)

-- A path with its slash; where none is written, it is the root.
abbrev pub path_text : Option (List ℕ) → List ℕ
path_text none = []
path_text (some rest) = b'/' ∷ rest

abbrev pub path_read : Option (List ℕ) → List ℕ
path_read none = b'/' ∷ []
path_read (some rest) = b'/' ∷ rest

-- A host and a port, the host in brackets or not.
abbrev pub authority_text : Bool → List ℕ → ℕ → List ℕ
authority_text true host port = b'[' ∷ (host ++ b']' ∷ b':' ∷ decimal port)
authority_text false host port = host ++ b':' ∷ decimal port

abbrev pub url_text : Bool → List ℕ → ℕ → Option (List ℕ) → List ℕ
url_text brackets host port path =
    url_prefix ++ (authority_text brackets host port ++ path_text path)

-- What a host may be: in brackets it has no closing one; else it does not start with one.
abbrev pub HostFits : Bool → List ℕ → Type 0
HostFits true host = Lacks b']' host
HostFits false [] = Unit {0}
HostFits false (c ∷ host) = (c == b'[') ≡ false

-- `strtol` reads a decimal text of a number that a `long` has to its end.
abbrev pub ReadsDecimal : (List ℕ → ℤ × ℕ) → Type 0
ReadsDecimal strtol = (n : ℕ) → n < 2 ^ 63 → strtol (decimal n) ≡ (pos n, length (decimal n))

split_first-Lacks :
    (c : ℕ) (xs ys : List ℕ) → Lacks c xs → split_first c (xs ++ c ∷ ys) ≡ some (xs, ys)
unfolding split_first
split_first-Lacks c [] ys h = let e : (c == c) ≡ true = ground arith in rw e refl
split_first-Lacks c (x ∷ xs) ys h = rw (h.0, split_first-Lacks c xs ys h.1) refl

split_first-none : (c : ℕ) (xs : List ℕ) → Lacks c xs → split_first c xs ≡ none
unfolding split_first
split_first-none c [] h = refl
split_first-none c (x ∷ xs) h = rw (h.0, split_first-none c xs h.1) refl

split_last-none : (c : ℕ) (xs : List ℕ) → Lacks c xs → split_last c xs ≡ none
unfolding split_last
split_last-none c [] h = refl
split_last-none c (x ∷ xs) h = rw (h.0, split_last-none c xs h.1) refl

split_last-Lacks :
    (c : ℕ) (xs ys : List ℕ) → Lacks c ys → split_last c (xs ++ c ∷ ys) ≡ some (xs, ys)
unfolding split_last
split_last-Lacks c [] ys h =
    let e : (c == c) ≡ true = ground arith in rw (e, split_last-none c ys h) refl
split_last-Lacks c (x ∷ xs) ys h = rw (split_last-Lacks c xs ys h) refl

-- The digits of a number.
digits_onto-All :
    (fuel n : ℕ) (acc : List ℕ)
    → All (λ x. (48 ≤ x) × (x ≤ 57)) acc
    → All (λ x. (48 ≤ x) × (x ≤ 57)) (digits_onto fuel n acc)
unfolding digits_onto
digits_onto-All zero n acc h = h
digits_onto-All (suc fuel) n acc h =
    let digit : (48 ≤ 48 + n % 10) × (48 + n % 10 ≤ 57) = omega arith in
    elim (Bool-cases (ltb n 10)) [
      | inl small ↦ rw small (digit, h)
      | inr large ↦ rw large (digits_onto-All fuel (n / 10) ((48 + n % 10) ∷ acc) (digit, h))
    ]

length-lt-digits_onto :
    (fuel n : ℕ) (acc : List ℕ) → length acc < length (digits_onto (suc fuel) n acc)
unfolding digits_onto
length-lt-digits_onto zero n acc = ground arith
length-lt-digits_onto (suc fuel) n acc = elim (Bool-cases (ltb n 10)) [
  | inl small ↦ rw small (omega arith)
  | inr large ↦ rw large (omega (arith, length-lt-digits_onto fuel (n / 10) ((48 + n % 10) ∷ acc)))
]

Lacks-digits :
    (c : ℕ) (xs : List ℕ) → (c < 48) ⊎ (57 < c) → All (λ x. (48 ≤ x) × (x ≤ 57)) xs → Lacks c xs
Lacks-digits c [] h d = tt
Lacks-digits c (x ∷ xs) h d = (ground arith, Lacks-digits c xs h d.1)

decimal_lem :
    (n : ℕ)
    → n ≤ 65535
    → (1 ≤ length (decimal n))
      × (length (decimal n) ≤ 5)
      × All (λ x. (48 ≤ x) × (x ≤ 57)) (decimal n)
unfolding decimal
decimal_lem n h =
    (length-lt-digits_onto 19 n [], length-decimal 4 n (omega arith), digits_onto-All 20 n [] tt)

-- The path is split off at the first slash.
split_path_lem :
    (authority : List ℕ) (path : Option (List ℕ))
    → Lacks b'/' authority
    → split_path (authority ++ path_text path) ≡ (authority, path_read path)
unfolding split_path
split_path_lem authority none h =
    rw (append-nil authority) (let e = split_first-none b'/' authority h in ground (arith, e))
split_path_lem authority (some rest) h =
    let e = split_first-Lacks b'/' authority rest h in ground (arith, e)

Lacks-authority :
    (brackets : Bool) (host : List ℕ) (port : ℕ)
    → Lacks b'/' host
    → port ≤ 65535
    → Lacks b'/' (authority_text brackets host port)
Lacks-authority true host port h le =
    let (some_digit, few, digits) = decimal_lem port le in
    (
      refl,
      All-append (λ x. (x == b'/') ≡ false) host (b']' ∷ b':' ∷ decimal port) h
          (refl, (refl, Lacks-digits b'/' (decimal port) (inl (omega arith)) digits)),
    )
Lacks-authority false host port h le =
    let (some_digit, few, digits) = decimal_lem port le in
    All-append (λ x. (x == b'/') ≡ false) host (b':' ∷ decimal port) h
      (refl, Lacks-digits b'/' (decimal port) (inl (omega arith)) digits)

split_authority_lem :
    (brackets : Bool) (host : List ℕ) (port : ℕ)
    → HostFits brackets host
    → 0 < length host
    → port ≤ 65535
    → split_authority (authority_text brackets host port) ≡ some (host, decimal port)
unfolding split_authority
split_authority_lem true host port fits some_host le =
    rw (split_first-Lacks b']' host (b':' ∷ decimal port) fits) refl
split_authority_lem false [] port fits some_host le = absurd (omega arith)
split_authority_lem false (c ∷ host) port fits some_host le =
    let (some_digit, few, digits) = decimal_lem port le in
    rw fits (
      split_last-Lacks b':' (c ∷ host) (decimal port)
        (Lacks-digits b':' (decimal port) (inr (omega arith)) digits))

check_upstream_lem :
    (strtol : List ℕ → ℤ × ℕ) (host path : List ℕ) (port : ℕ)
    → ReadsDecimal strtol
    → (0 < length host) × (length host < upstream_host_max)
    → (1 ≤ port) × (port ≤ 65535)
    → length path < upstream_path_max
    → check_upstream strtol host (decimal port) path
      ≡ some (record { host = host; port = port; path = path })
unfolding check_upstream parse_port up_to
check_upstream_lem strtol host path port reads hosts ports paths =
    let (some_digit, few, digits) = decimal_lem port ports.1 in
    ground (arith, reads port (omega arith))

some_text :
    (brackets : Bool) (host : List ℕ) (port : ℕ) (rest : List ℕ)
    → 0 < length host
    → (length (authority_text brackets host port ++ rest) == 0) ≡ false
some_text true host port rest h = ground arith
some_text false [] port rest h = absurd (omega arith)
some_text false (c ∷ host) port rest h = ground arith

-- What `parse_upstream` does once the text is split.
abbrev read_parts : (List ℕ → ℤ × ℕ) → List ℕ × List ℕ → Option UpstreamConfig
read_parts strtol (authority, path) = elim (split_authority authority) [
  | none ↦ none
  | some (host, port_text) ↦ check_upstream strtol host port_text path
]

parse_upstream_lem :
    (strtol : List ℕ → ℤ × ℕ) (authority host port_text path p : List ℕ) (u : UpstreamConfig)
    → split_path p ≡ (authority, path)
    → split_authority authority ≡ some (host, port_text)
    → check_upstream strtol host port_text path ≡ some u
    → parse_upstream strtol p ≡ some u
unfolding parse_upstream
parse_upstream_lem strtol authority host port_text path p u split parts checked =
    ap (read_parts strtol) split ∙ rw (parts, read_parts) checked

-- A URL of a host, in brackets or not, a port and a path, or none, is read as it was written, where
-- the host is 1 to 255 characters without a slash, and without `]` in brackets or `[` in front
-- without, the port is 1 to 65535, and the path is shorter than 512 characters; a missing path is
-- "/". It is put behind the upstreams that are there, where there is memory for it. `strtol` is
-- assumed to read a decimal text of a number below 2^63 to its end.
pub add_upstream_url-url_text :
    (strtol : List ℕ → ℤ × ℕ) (realloc : ℕ → Bool) (conf roomy : ServerConfig) (brackets : Bool)
    (host : List ℕ) (port : ℕ) (path : Option (List ℕ))
    → ReadsDecimal strtol
    → HostFits brackets host × Lacks b'/' host
    → (0 < length host) × (length host < upstream_host_max)
    → (1 ≤ port) × (port ≤ 65535)
    → length (path_read path) < upstream_path_max
    → ensure_upstream_capacity realloc conf ≡ some roomy
    → add_upstream_url strtol realloc conf (url_text brackets host port path)
      ≡ some (record roomy {
        upstreams =
            roomy.upstreams ++ record { host = host; port = port; path = path_read path } ∷ [];
      })
unfolding add_upstream_url after_prefix
add_upstream_url-url_text strtol realloc conf roomy brackets host port path reads fits hosts ports
      paths room =
    let authority = authority_text brackets host port in
    let split = split_path_lem authority path (Lacks-authority brackets host port fits.1 ports.1) in
    let parts = split_authority_lem brackets host port fits.0 hosts.0 ports.1 in
    let checked = check_upstream_lem strtol host (path_read path) port reads hosts ports paths in
    let long : (length (authority ++ path_text path) == 0) ≡ false =
      some_text brackets host port (path_text path) hosts.0 in
    let u : UpstreamConfig = record { host = host; port = port; path = path_read path } in
    let read : parse_upstream strtol (authority ++ path_text path) ≡ some u =
      parse_upstream_lem strtol authority host (decimal port) (path_read path)
        (authority ++ path_text path) u split parts checked in
    rw long (rw (read, add_upstream_url) (rw (room, add_upstream_url) refl))
