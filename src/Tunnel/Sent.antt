-- ===== src/Tunnel/Sent.antt =====
-- The headers of the websocket request (`build_gateway_request` in src/tunnel.rs).
use ws2tcp_local_core.Base.{
  ◌≡◌, refl, sym, ap, ◌∙◌, Bool, true, false, [], ◌∷◌, ◌++◌, Option, none, some, ok, ok_or,
  ok-injective, >>=-eq-ok, arith, inl, inr, Bool-cases, All,
}
use ws2tcp_local_core.Text.{Text, lit, equal}
use ws2tcp_local_core.Text.Equal.{equal_iff}
use ws2tcp_local_core.Websocket.{Headers, Request}
use ws2tcp_local_core.Settings.Valid.{IsDistinct}
use ws2tcp_local_core.Tunnel.{
  World, bad_url, without, insert, get, insert_all, with_authorization, build_gateway_request,
}

get-without_same : (name : Text) (headers : Headers) → get name (without name headers) ≡ none
unfolding get without
get-without_same name [] = refl
get-without_same name ((n, v) ∷ headers) = elim (Bool-cases (equal name n)) [
  | inl e ↦ rw (e, without) (get-without_same name headers)
  | inr e ↦ rw (e, without) (rw (e, get) (get-without_same name headers))
]

get-without_other :
    (name other : Text) (headers : Headers)
    → equal other name ≡ false
    → get other (without name headers) ≡ get other headers
unfolding get without
get-without_other name other [] h = refl
get-without_other name other ((n, v) ∷ headers) h = elim (Bool-cases (equal name n)) [
  | inl e ↦
      let differ : equal other n ≡ false = ap (equal other) (sym ((equal_iff name n).0 e)) ∙ h in
      rw (e, without) (rw (differ, get) (get-without_other name other headers h))
  | inr e ↦ rw (e, without) (by_first (equal other n) (get-without_other name other headers h))
]
  where
    by_first :
        (b : Bool)
        → get other (without name headers) ≡ get other headers
        → ◌≡◌ {A = Option Text}
            (elim b [ true ↦ some v | false ↦ get other (without name headers) ])
            (elim b [ true ↦ some v | false ↦ get other headers ])
    by_first true h = refl
    by_first false h = h

get-append_none :
    (name : Text) (front back : Headers)
    → get name front ≡ none
    → get name (front ++ back) ≡ get name back
unfolding get
get-append_none name [] back h = refl
get-append_none name ((n, v) ∷ front) back h = elim (Bool-cases (equal name n)) [
  | inl e ↦ absurd (ground arith)
  | inr e ↦ rw (e, get) (get-append_none name front back (ground arith))
]

get-append_last :
    (name other value : Text) (front : Headers)
    → equal name other ≡ false
    → get name (front ++ ((other, value) ∷ [])) ≡ get name front
unfolding get
get-append_last name other value [] h = rw (h, get) refl
get-append_last name other value ((n, v) ∷ front) h = elim (Bool-cases (equal name n)) [
  | inl e ↦ rw (e, get) refl
  | inr e ↦ rw (e, get) (get-append_last name other value front h)
]

equal_refl : (s : Text) → equal s s ≡ true
equal_refl s = (equal_iff s s).1 refl

get-insert_same :
    (name value : Text) (headers : Headers) → get name (insert headers name value) ≡ some value
unfolding insert get
get-insert_same name value headers =
    get-append_none name (without name headers) ((name, value) ∷ []) (get-without_same name headers)
    ∙ rw (equal_refl name, get) refl

get-insert_other :
    (name other value : Text) (headers : Headers)
    → equal other name ≡ false
    → get other (insert headers name value) ≡ get other headers
unfolding insert
get-insert_other name other value headers h =
    get-append_last other name value (without name headers) h
    ∙ get-without_other name other headers h

-- the headers that are not given stay
get-insert_all-none :
    (name : Text) (headers given : Headers)
    → get name given ≡ none
    → get name (insert_all headers given) ≡ get name headers
unfolding insert_all get
get-insert_all-none name headers [] h = refl
get-insert_all-none name headers ((n, v) ∷ given) h = elim (Bool-cases (equal name n)) [
  | inl e ↦ absurd (ground arith)
  | inr e ↦
      get-insert_all-none name (insert headers n v) given (ground arith)
      ∙ get-insert_other n name v headers e
]

get-lacks :
    (name : Text) (given : Headers)
    → All (λ k. equal k.0 name ≡ false) given
    → get name given ≡ none
unfolding get
get-lacks name [] h = refl
get-lacks name ((n, v) ∷ given) (first, others) = elim (Bool-cases (equal name n)) [
  | inl e ↦
      let same : equal n name ≡ true = (equal_iff n name).1 (sym ((equal_iff name n).0 e)) in
      absurd (ground arith)
  | inr e ↦ rw (e, get) (get-lacks name given others)
]

-- the headers that are given are there
get-insert_all-some :
    (name value : Text) (headers given : Headers)
    → IsDistinct given
    → get name given ≡ some value
    → get name (insert_all headers given) ≡ some value
unfolding insert_all get
get-insert_all-some name value headers [] d h = absurd (ground arith)
get-insert_all-some name value headers ((n, v) ∷ given) (first, others) h =
    elim (Bool-cases (equal name n)) [
      | inl e ↦
          let same : name ≡ n = (equal_iff name n).0 e in
          let given_value : v ≡ value = ground arith in
          ap (λ k. get k (insert_all (insert headers n v) given)) same
          ∙ get-insert_all-none n (insert headers n v) given (get-lacks n given first)
          ∙ get-insert_same n v headers
          ∙ ap some given_value
      | inr e ↦ get-insert_all-some name value (insert headers n v) given others (ground arith)
    ]

module _ (world : World) (ws_url : Text) (authorization : Option Text) (headers : Headers)
    (r : Request) where
  built :
      build_gateway_request world ws_url authorization headers ≡ ok r
      → (base : Request) × (start : Headers) × (with_authorization world authorization base.headers
          ≡ ok start)
        × (r.headers ≡ insert_all start headers)
  unfolding build_gateway_request
  built h =
      let (base, _, h1) = >>=-eq-ok (ok_or bad_url (world.into_client_request ws_url)) _ h in
      let (start, authorized, h2) =
        >>=-eq-ok (with_authorization world authorization base.headers) _ h1 in
      (base, start, authorized, ap (λ (x : Request). x.headers) (sym (ok-injective _ r h2)))

  -- Every header of the settings is in the websocket request.
  pub build_gateway_request-given :
      (name value : Text)
      → build_gateway_request world ws_url authorization headers ≡ ok r
      → IsDistinct headers
      → get name headers ≡ some value
      → get name r.headers ≡ some value
  build_gateway_request-given name value h d g =
      let (base, start, _, same) = built h in
      ap (get name) same ∙ get-insert_all-some name value start headers d g

  -- Where the settings do not override it, the request carries the authorization.
  pub build_gateway_request-authorization :
      (value : Text)
      → build_gateway_request world ws_url authorization headers ≡ ok r
      → authorization ≡ some value
      → get (lit "authorization") headers ≡ none
      → get (lit "authorization") r.headers ≡ some value
  build_gateway_request-authorization value h a g =
      let (base, start, authorized, same) = built h in
      ap (get (lit "authorization")) same
      ∙ get-insert_all-none (lit "authorization") start headers g
      ∙ by_check base start (ap (λ x. with_authorization world x base.headers) (sym a) ∙ authorized)
    where
      by_check :
          (base : Request) (start : Headers)
          → with_authorization world (some value) base.headers ≡ ok start
          → get (lit "authorization") start ≡ some value
      by_check base start e = elim (Bool-cases (world.service.is_header value)) [
        | inl valid ↦
            let same : insert base.headers (lit "authorization") value ≡ start = ground arith in
            ap (get (lit "authorization")) (sym same)
            ∙ get-insert_same (lit "authorization") value base.headers
        | inr invalid ↦ absurd (ground arith)
      ]
