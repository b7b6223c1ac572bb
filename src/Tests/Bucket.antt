-- ===== src/Tests/Bucket.antt =====
-- An object store that is a function from keys to objects.
use imgx.Base.{
  Text, true, Option, none, some, ok, ◌==◌, text_eq, if◌then◌else◌, ◌≡◌, ◌⊎◌, inl, inr, Bool-cases,
  ok_injective,
}
use imgx.Cache.R2.{Response, S3Client}
use imgx.Cache.R2.Faithful.{IsHonest}

abbrev pub Objects : Type 0
Objects = Text → Option Response

abbrev pub no_objects : Objects
no_objects k = none

-- a change at one key
abbrev pub with_object : Text → Option Response → Objects → Objects
with_object key object s = λ k. if k == key then object else s k

abbrev pub client : S3Client Objects Text
client = record {
  get_object = λ key s. ok (s key);
  put_object = λ key body type s.
      (ok true, with_object key (some (record { data_bytes = body; content_type = type })) s);
  delete_object = λ key s. (ok true, with_object key none s);
}

-- The key holds this object.
abbrev pub Holding : Objects → Text → Text → Text → Type 0
Holding s key body type = s key ≡ some (record { data_bytes = body; content_type = type })

pub put_known :
    (key body type k b t : Text) (s : Objects)
    → Holding (with_object key (some (record { data_bytes = body; content_type = type })) s) k b t
    → Holding s k b t ⊎ ((k ≡ key) × (b ≡ body) × (t ≡ type))
put_known key body type k b t s h = elim (Bool-cases (k == key)) [
  | inr other ↦ inl (rw other at h)
  | inl same ↦ let stored = rw same at h in inr ((text_eq.agrees k key).0 same, cc, cc)
]

pub deleted :
    (key k b t : Text) (s : Objects) → Holding (with_object key none s) k b t → Holding s k b t
deleted key k b t s h = elim (Bool-cases (k == key)) [
  | inr other ↦ rw other at h
  | inl same ↦ absurd (cc (rw same at h))
]

abbrev pub honest : IsHonest client
honest = record {
  Holds = Holding;
  get_held = λ key r s h. ok_injective h;
  put_held = put_known;
  delete_held = deleted;
}

pub nothing_held : (key body type : Text) → ¬ IsHonest.Holds honest no_objects key body type
nothing_held key body type h = cc
