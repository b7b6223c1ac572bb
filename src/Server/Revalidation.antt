-- ===== src/Server/Revalidation.antt =====
-- What a client gets that sends back the entity tag of an earlier response.
use imgx.Base.{
  ℕ, Text, bytes, Option, some, [], text_eq, text_beq, ◌≡◌, refl, Bool-cases, inl, inr, subst, sym,
  ap, ◌∙◌,
}
use imgx.Config.{Config}
use imgx.Http.Response.{generate_etag, should_return_304}
use imgx.Http.Response.Etags.{IsForm, should_return_304_iff}
use imgx.Server.{header, build_image_response}

module _ (xxh3_64 : Text → ℕ) where
  header-etag :
      (config : Config) (data_bytes type : Text) (seen : Option Text)
      → header (bytes "etag") (build_image_response xxh3_64 config data_bytes type seen).headers
        ≡ some (generate_etag xxh3_64 data_bytes)
  unfolding build_image_response header text_beq
  header-etag config data_bytes type seen =
      elim (Bool-cases (should_return_304 seen (generate_etag xxh3_64 data_bytes))) [
        | inl same ↦ rw same refl
        | inr other ↦ rw other refl
      ]

  -- Every response with an image carries an entity tag; a client that sends that tag back, bare, in
  -- quotes or as weak, for the same data gets a 304 with no body and the same tag, whatever it sent
  -- before.
  pub build_image_response-revalidate :
      (config : Config) (data_bytes type : Text) (seen : Option Text) (tag raw : Text)
      → header (bytes "etag") (build_image_response xxh3_64 config data_bytes type seen).headers
        ≡ some tag
      → IsForm tag raw
      → ((build_image_response xxh3_64 config data_bytes type (some raw)).status ≡ 304)
        × ((build_image_response xxh3_64 config data_bytes type (some raw)).body ≡ [])
        × (header
              (bytes "etag")
              (build_image_response xxh3_64 config data_bytes type (some raw)).headers
            ≡ some tag)
  unfolding build_image_response
  build_image_response-revalidate config data_bytes type seen tag raw sent form =
      let same : generate_etag xxh3_64 data_bytes ≡ tag =
        cc (header-etag config data_bytes type seen, sent) in
      let matched =
        (should_return_304_iff xxh3_64 data_bytes (some raw)).1
          (raw, refl, subst (λ t. IsForm t raw) (sym same) form) in
      (
        rw matched refl,
        rw matched refl,
        header-etag config data_bytes type (some raw) ∙ ap some same,
      )
