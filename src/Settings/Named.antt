-- ===== src/Settings/Named.antt =====
-- What `add_header` of src/settings.rs does to the headers.
use mathlib.Core.Path.{subst}
use ws2tcp_local_core.Base.{
  ◌≡◌, refl, sym, true, false, not, [], ◌∷◌, ◌++◌, some, ok, ok_or, ok-injective, >>=-eq-ok,
  bail_if, arith, inl, inr, Bool-cases, All, All-append,
}
use ws2tcp_local_core.Text.{Text, equal, trim}
use ws2tcp_local_core.Text.Equal.{equal_iff}
use ws2tcp_local_core.Text.Utf8.{as_bytes}
use ws2tcp_local_core.Url.{UrlParser}
use ws2tcp_local_core.Websocket.{Headers}
use ws2tcp_local_core.Settings.{Settings, bad_header_name, bad_header_value, reserved_header}
use ws2tcp_local_core.Settings.Added.{HeaderParser, is_reserved, without, add_header}
use ws2tcp_local_core.Settings.Valid.{IsDistinct, IsValid}

equal_sym_false : (a b : Text) → equal a b ≡ false → equal b a ≡ false
equal_sym_false a b h = elim (Bool-cases (equal b a)) [
  | inl e ↦
      let same : equal a b ≡ true = (equal_iff a b).1 (sym ((equal_iff b a).0 e)) in
      absurd (ground arith)
  | inr e ↦ e
]

without-All :
    (P : Text × Text → Type 0) (name : Text) (headers : Headers)
    → All P headers
    → All P (without name headers)
unfolding without
without-All P name [] h = tt
without-All P name ((n, v) ∷ headers) (first, others) = elim (Bool-cases (equal n name)) [
  | inl e ↦ rw (e, without) (without-All P name headers others)
  | inr e ↦ rw (e, without) (first, without-All P name headers others)
]

-- no header has the name
abbrev Lacks : Text → Headers → Type 0
Lacks name headers = All (λ k. equal k.0 name ≡ false) headers

without-Lacks : (name : Text) (headers : Headers) → Lacks name (without name headers)
unfolding without
without-Lacks name [] = tt
without-Lacks name ((n, v) ∷ headers) = elim (Bool-cases (equal n name)) [
  | inl e ↦ rw (e, without) (without-Lacks name headers)
  | inr e ↦ rw (e, without) (e, without-Lacks name headers)
]

without-IsDistinct :
    (name : Text) (headers : Headers) → IsDistinct headers → IsDistinct (without name headers)
unfolding without
without-IsDistinct name [] h = tt
without-IsDistinct name ((n, v) ∷ headers) (first, others) = elim (Bool-cases (equal n name)) [
  | inl e ↦ rw (e, without) (without-IsDistinct name headers others)
  | inr e ↦
      rw (e, without)
        (
          without-All (λ k. equal k.0 n ≡ false) name headers first,
          without-IsDistinct name headers others,
        )
]

append-IsDistinct :
    (name value : Text) (headers : Headers)
    → IsDistinct headers
    → Lacks name headers
    → IsDistinct (headers ++ ((name, value) ∷ []))
append-IsDistinct name value [] h k = (tt, tt)
append-IsDistinct name value ((n, v) ∷ headers) (first, others) (other, lacks) = (
  All-append (λ j. equal j.0 n ≡ false) headers ((name, value) ∷ []) first
      (equal_sym_false n name other, tt),
  append-IsDistinct name value headers others lacks,
)

-- What adding a header leaves: settings that are valid still, with the header last, under the name
-- that was read, which is not reserved, and the other headers as they were.
pub record IsAdded (parse_url : UrlParser) (parser : HeaderParser) (name value : Text)
    (s t : Settings) : Type 0 where
  pub parsed : Text
  pub reads : parser.from_bytes (as_bytes (trim name)) ≡ some parsed
  pub is_free : is_reserved parsed ≡ false
  pub header_last : t.headers ≡ without parsed s.headers ++ ((parsed, value) ∷ [])
  pub valid : IsValid parse_url t

module _ (parse_url : UrlParser) (parser : HeaderParser) where
  -- A header that is added to valid settings replaces one of its name; no name is reserved for the
  -- handshake and none stands twice.
  pub add_header-IsAdded :
      (name value : Text) (s t : Settings)
      → IsValid parse_url s
      → add_header parser name value s ≡ ok t
      → IsAdded parse_url parser name value s t
  unfolding add_header
  add_header-IsAdded name value s t valid h =
      let (parsed, at_name, h1) =
        >>=-eq-ok (ok_or bad_header_name (parser.from_bytes (as_bytes (trim name)))) _ h in
      let (_, _, h2) = >>=-eq-ok (bail_if (not (parser.is_value value)) bad_header_value) _ h1 in
      let (_, free, h3) = >>=-eq-ok (bail_if (is_reserved parsed) reserved_header) _ h2 in
      let free_name : is_reserved parsed ≡ false = ground arith in
      subst (IsAdded parse_url parser name value s) (ok-injective _ t h3) (record {
        parsed = parsed;
        reads = ground arith;
        is_free = free_name;
        header_last = refl;
        valid = record {
          buffer_pos = valid.buffer_pos;
          interval_pos = valid.interval_pos;
          has_urls = valid.has_urls;
          web_urls = valid.web_urls;
          free_headers =
              All-append (λ j. is_reserved j.0 ≡ false) (without parsed s.headers)
                ((parsed, value) ∷ [])
                (without-All (λ j. is_reserved j.0 ≡ false) parsed s.headers valid.free_headers)
                (free_name, tt);
          distinct_headers =
              append-IsDistinct parsed value (without parsed s.headers)
                (without-IsDistinct parsed s.headers valid.distinct_headers)
                (without-Lacks parsed s.headers);
        };
      })
