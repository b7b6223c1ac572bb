-- ===== src/Origin/Fetcher/Limits.antt =====
-- What a fetch returns, and that it is never more than the limit.
use imgx.Base.{
  ℕ, ◌+◌, ◌≤◌, ◌<◌, Text, false, Option, none, some, [], ◌++◌, ltb, leb, ◌==◌, nat_eq, length,
  length-append, Result, ok, >>=-eq-ok, ◌≡◌, ◌≢◌, ◌↔◌, refl, sym, ap, ap₂, ◌∙◌, arith, append_assoc,
  append-nil, Bool-cases, inl, inr, Result-cases, subst,
}
use imgx.Origin.Fetcher.{
  Body, Response, FetchError, FetchResult, SendError, read_chunks, read_response, declares_too_much,
  type_or_default, fetch, build_url,
}

-- The bytes of a body that ends without an error.
abbrev pub content : Body → Option Text
content Body.done = some []
content (Body.broken e) = none
content (Body.chunk c body) = elim (content body) [ none ↦ none | some t ↦ some (c ++ t) ]

content-chunk :
    (c : Text) (body : Body) (u : Text)
    → content (Body.chunk c body) ≡ some u
    → (t : Text) × (content body ≡ some t) × (u ≡ c ++ t)
content-chunk c body u h = go (content body) refl h
  where
    go :
        (m : Option Text)
        → content body ≡ m
        → elim m [ none ↦ none | some t ↦ some (c ++ t) ] ≡ some u
        → (t : Text) × (content body ≡ some t) × (u ≡ c ++ t)
    go none e k = absurd cc
    go (some t) e k = (t, e, cc)

module _ {E : Type 0} (broken_off : Text → E) (too_large : E) where
  read_chunks_sound :
      (max_size : ℕ) (acc : Text) (body : Body) (t : Text)
      → length acc ≤ max_size
      → read_chunks broken_off too_large max_size acc body ≡ ok t
      → (length t ≤ max_size) × (u : Text) × (content body ≡ some u) × (t ≡ acc ++ u)
  unfolding read_chunks
  read_chunks_sound max_size acc Body.done t l h =
      let same : acc ≡ t = cc in
      (subst (λ x. length x ≤ max_size) same l, [], refl, sym same ∙ sym (append-nil acc))
  read_chunks_sound max_size acc (Body.broken e) t l h = absurd cc
  read_chunks_sound max_size acc (Body.chunk c body) t l h =
      elim (Bool-cases (ltb max_size (length (acc ++ c)))) [
        | inl over ↦ absurd (ground (arith, over))
        | inr fits ↦
            let (small, u, e, p) =
              read_chunks_sound max_size (acc ++ c) body t (ground (arith, fits)) (rw fits at h) in
            (small, c ++ u, rw e refl, p ∙ append_assoc acc c u)
      ]

  read_chunks_complete :
      (max_size : ℕ) (acc : Text) (body : Body) (u : Text)
      → content body ≡ some u
      → length acc + length u ≤ max_size
      → read_chunks broken_off too_large max_size acc body ≡ ok (acc ++ u)
  unfolding read_chunks
  read_chunks_complete max_size acc Body.done u h l =
      let same : [] ≡ u = cc in ap ok (sym (append-nil acc) ∙ ap (λ x. acc ++ x) same)
  read_chunks_complete max_size acc (Body.broken e) u h l = absurd cc
  read_chunks_complete max_size acc (Body.chunk c body) u h l =
      let (t, e, p) = content-chunk c body u h in
      let size = ap length p ∙ length-append c t in
      let size' = length-append acc c in
      let fits : ltb max_size (length (acc ++ c)) ≡ false = ground (arith, size, size', l) in
      let ih = read_chunks_complete max_size (acc ++ c) body t e (omega (arith, size, size', l)) in
      rw fits (ih ∙ ap ok (append_assoc acc c t ∙ ap (λ x. acc ++ x) (sym p)))

  pub read_body_iff :
      (max_size : ℕ) (body : Body) (t : Text)
      → (read_chunks broken_off too_large max_size [] body ≡ ok t)
        ↔ ((content body ≡ some t) × (length t ≤ max_size))
  read_body_iff max_size body t = (
    λ h.
        let (small, u, e, p) = read_chunks_sound max_size [] body t (omega arith) h in
        (e ∙ ap some (sym p), small),
    λ (e, small). read_chunks_complete max_size [] body t e (omega (arith, small)),
  )

-- A response that is returned: its status is not 404 and below 500, the length that it declares and
-- the length that it has are within the limit, and its body is whole.
pub record IsServed (max_size : ℕ) (resp : Response) (r : FetchResult) : Type 0 where
  pub found : resp.status ≢ 404
  pub no_error : resp.status < 500
  pub declared : declares_too_much max_size resp.content_length ≡ false
  pub whole : content resp.body ≡ some r.data_bytes
  pub small : length r.data_bytes ≤ max_size
  pub type : r.content_type ≡ type_or_default resp.content_type
  pub status : r.status_code ≡ resp.status

abbrev ok_fetch : {A : Type 0} → A → Result FetchError A
ok_fetch a = ok a

ok_injective : {A : Type 0} (a b : A) → ok_fetch a ≡ ok b → a ≡ b
ok_injective a b h = cc

pub read_response_sound :
    (max_size : ℕ) (resp : Response) (r : FetchResult)
    → read_response max_size resp ≡ ok r
    → IsServed max_size resp r
unfolding read_response
read_response_sound max_size resp r h = elim (Bool-cases (resp.status == 404)) [
  | inl missing ↦ absurd (ground (arith, missing))
  | inr there ↦ elim (Bool-cases (leb 500 resp.status)) [
    | inl failing ↦ absurd (ground (arith, there, failing))
    | inr fine ↦ elim (Bool-cases (declares_too_much max_size resp.content_length)) [
      | inl large ↦ absurd (ground (arith, there, fine, large))
      | inr fits ↦
          let (t, e, p) =
            >>=-eq-ok
              (read_chunks FetchError.connection_failed FetchError.response_too_large max_size []
                resp.body)
              _ (rw (there, fine, fits) at h) in
          let (whole', small') =
            (read_body_iff FetchError.connection_failed FetchError.response_too_large max_size
                resp.body t).0
              e in
          let same = ok_injective _ r p in
          subst (IsServed max_size resp) same (record {
            found = λ q. ground (arith, there, q);
            no_error = ground (arith, fine);
            declared = fits;
            whole = whole';
            small = small';
            type = refl;
            status = refl;
          })
    ]
  ]
]

pub read_response_complete :
    (max_size : ℕ) (resp : Response) (r : FetchResult)
    → IsServed max_size resp r
    → read_response max_size resp ≡ ok r
unfolding read_response
read_response_complete max_size resp r w =
    let there : (resp.status == 404) ≡ false = ground (arith, w.found) in
    let fine : leb 500 resp.status ≡ false = ground (arith, w.no_error) in
    let body =
      (read_body_iff FetchError.connection_failed FetchError.response_too_large max_size resp.body
          r.data_bytes).1
        (w.whole, w.small) in
    rw (there, fine, w.declared, body)
      (ap ok (
        ap₂ (λ c n. record { data_bytes = r.data_bytes; content_type = c; status_code = n })
          (sym w.type) (sym w.status)))

-- A fetch gives a result exactly if the path makes a URL, the origin answers with a status that is
-- not 404 and is below 500, and its body ends without an error and within the limit, as does the
-- length that it declares; the result is that body, its type and its status.
pub fetch_iff :
    (send : Text → Result SendError Response) (base_url : Text) (max_size : ℕ) (path : Text)
    (r : FetchResult)
    → (fetch send base_url max_size path ≡ ok r) ↔ (
        (url : Text) × (resp : Response) × (build_url base_url path ≡ ok url)
        × (send url ≡ ok resp)
        × IsServed max_size resp r)
unfolding fetch
fetch_iff send base_url max_size path r = (
  λ h. elim (Result-cases (build_url base_url path)) [
    | inr (e, refused) ↦ absurd (cc (rw (refused, fetch) at h))
    | inl (url, built) ↦ elim (Result-cases (send url)) [
      | inr (e, lost) ↦ absurd (cc (rw (built, fetch, lost, fetch) at h))
      | inl (resp, sent) ↦ (
        url,
        resp,
        built,
        sent,
        read_response_sound max_size resp r (rw (built, fetch, sent, fetch) at h),
      )
    ]
  ],
  λ (url, resp, built, sent, served).
      rw (built, fetch, sent, fetch) (read_response_complete max_size resp r served),
)
