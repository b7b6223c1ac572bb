-- ===== src/Origin/R2.antt =====
-- crates/imgx/src/origin/r2.rs: source images from a bucket, over the store's client as a parameter.
use imgx.Base.{
  ℕ, Text, bytes, Option, none, some, [], ◌∷◌, ◌++◌, Result, ok, err, ◌≡◌, ◌≢◌, ◌↔◌, refl, sym, ap,
  ◌∙◌, Result-cases, Option-cases, inl, inr,
}
use imgx.Origin.Fetcher.{UrlError, FetchError, FetchResult, clean_path}
use imgx.Transform.Print.{decimal}

-- crates/imgx/src/s3/client.rs
pub data S3Error : Type 0 where
  connection_failed signing_failed invalid_endpoint : Text → S3Error
  not_found access_denied : S3Error
  server_error : ℕ → S3Error

pub record S3Response : Type 0 where
  pub data_bytes : Text
  pub content_type : Text
  pub status : ℕ

-- `e.to_string()`
unfoldable pub error_text : S3Error → Text
unfolding decimal
error_text (S3Error.connection_failed e) = bytes "s3 connection failed: " ++ e
error_text (S3Error.signing_failed e) = bytes "s3 request signing failed: " ++ e
error_text (S3Error.invalid_endpoint e) = bytes "invalid s3 endpoint: " ++ e
error_text S3Error.not_found = bytes "s3 object not found"
error_text S3Error.access_denied = bytes "s3 access denied"
error_text (S3Error.server_error status) =
    bytes "s3 server error (status " ++ (decimal status ++ bytes ")")

unfoldable pub store_error : S3Error → FetchError
unfolding error_text
store_error S3Error.not_found = FetchError.not_found
store_error S3Error.access_denied = FetchError.server_error 403
store_error (S3Error.server_error status) = FetchError.server_error status
store_error e = FetchError.connection_failed (error_text e)

abbrev pub to_result : S3Response → FetchResult
to_result resp = record {
  data_bytes = resp.data_bytes;
  content_type = resp.content_type;
  status_code = resp.status;
}

unfoldable pub fetch :
    (Text → Result S3Error (Option S3Response)) → Text → Result FetchError FetchResult
unfolding clean_path store_error
fetch get_object [] = err (FetchError.invalid_url UrlError.empty_path)
fetch get_object (b ∷ image_path) = elim (get_object (clean_path (b ∷ image_path))) [
  | ok (some resp) ↦ ok (to_result resp)
  | ok none ↦ err FetchError.not_found
  | err e ↦ err (store_error e)
]

abbrev ok_fetch : FetchResult → Result FetchError FetchResult
ok_fetch r = ok r

ok_injective : (q r : FetchResult) → ok_fetch q ≡ ok_fetch r → q ≡ r
ok_injective q r h = cc

-- A fetch from the bucket gives a result exactly if the path is not empty and the store has an
-- object under the path without its first slash; the result is that object, with the status of the
-- store's answer.
pub r2_fetch_iff :
    (get_object : Text → Result S3Error (Option S3Response)) (path : Text) (r : FetchResult)
    → (fetch get_object path ≡ ok r) ↔ (
        (resp : S3Response) × (path ≢ [])
        × (get_object (clean_path path) ≡ ok (some resp))
        × (r ≡ to_result resp))
unfolding fetch
r2_fetch_iff get_object [] r = (λ h. absurd cc, λ (resp, n, e, q). absurd (n refl))
r2_fetch_iff get_object (b ∷ path) r = (
  λ h. elim (Result-cases (get_object (clean_path (b ∷ path)))) [
    | inr (e, lost) ↦ absurd (cc (rw (lost, fetch) at h))
    | inl (found, answered) ↦ elim (Option-cases found) [
      | inl missing ↦ absurd (cc (rw (answered ∙ ap ok missing, fetch) at h))
      | inr (resp, there) ↦
          let whole = answered ∙ ap ok there in
          (resp, λ q. cc, whole, sym (ok_injective (to_result resp) r (rw (whole, fetch) at h)))
    ]
  ],
  λ (resp, n, e, q). rw (e, fetch) (ap ok (sym q)),
)
