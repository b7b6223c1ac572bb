-- ===== src/Server/Handler/Guards.antt =====
-- Which requests pass the guards of the handler.
use imgx.Base.{
  ℕ, Bool, true, false, not, ◌&&◌, ◌||◌, Option, none, some, List, [], ◌∷◌, Result, ok, err,
  fail_if, ◌>>◌, ltb, ◌≤◌, ◌≡◌, ◌↔◌, ◌⊎◌, inl, inr, refl, sym, ap, arith, subst, >>=-eq-ok,
}
use imgx.Config.{Config}
use imgx.Router.{ImageRequest, is_absolute_url_source}
use imgx.Server.Requests.{
  Headers, or_refuse, valid_or_refuse, transform_string, parse_options, check_options,
  check_request, admit, exceeds_limits, is_slow, no_overlays, no_remote_sources, out_of_range,
}
use imgx.Transform.Floats.{Floats}
use imgx.Transform.Numbers.{Fault, panic, error}
use imgx.Transform.Options.{ParseError}
use imgx.Transform.Params.{TransformParams}
use imgx.Transform.Params.Parse.{parse}
use imgx.Transform.Params.Validate.{validate, apply_scq_override, has_elements, is_some_and}
use imgx.Transform.Params.Validate.Bounds.{IsValid, validate_iff}

-- A chain of four guards passes exactly if each of them does.
guards-eq-ok :
    {E A : Type 0} (m : Result E (Unit {0})) (b c d : Bool) (e f g : E) (y a : A)
    → ((m >> (fail_if b e >> (fail_if c f >> (fail_if d g >> ok y)))) ≡ ok a)
      ↔ ((m ≡ ok tt) × (b ≡ false) × (c ≡ false) × (d ≡ false) × (a ≡ y))
guards-eq-ok (err x) b c d e f g y a = (λ h. absurd cc, λ h. absurd cc)
guards-eq-ok (ok u) true c d e f g y a = (λ h. absurd cc, λ h. absurd cc)
guards-eq-ok (ok u) false true d e f g y a = (λ h. absurd cc, λ h. absurd cc)
guards-eq-ok (ok u) false false true e f g y a = (λ h. absurd cc, λ h. absurd cc)
guards-eq-ok (ok u) false false false e f g y a =
    (λ h. (refl, refl, refl, refl, cc), λ (p, q, r, t, h). ap ok (sym h))

-- Something is allowed, or there is none of it.
gate_iff :
    (asked allowed : Bool) → (asked && not allowed ≡ false) ↔ ((asked ≡ false) ⊎ (allowed ≡ true))
gate_iff false allowed = (λ h. inl refl, λ h. refl)
gate_iff true false = (λ h. absurd cc, λ h. ground (arith, h))
gate_iff true true = (λ h. inr refl, λ h. refl)

draw_gate_iff :
    {A : Type 0} (l : List A) (allowed : Bool)
    → (has_elements l && not allowed ≡ false) ↔ ((l ≡ []) ⊎ (allowed ≡ true))
draw_gate_iff [] allowed = (λ h. inl refl, λ h. refl)
draw_gate_iff (a ∷ l) false = (λ h. absurd cc, λ h. absurd (elim h [ inl e ↦ cc | inr e ↦ cc ]))
draw_gate_iff (a ∷ l) true = (λ h. inr refl, λ h. refl)

-- The number is absent or at most the limit.
abbrev pub IsWithin : ℕ → Option ℕ → Type 0
IsWithin max none = Unit
IsWithin max (some n) = n ≤ max

IsWithin_iff : (max : ℕ) (o : Option ℕ) → (is_some_and (ltb max) o ≡ false) ↔ IsWithin max o
IsWithin_iff max none = (λ h. tt, λ h. refl)
IsWithin_iff max (some n) = (λ h. ground arith, λ h. ground arith)

or_iff : (a b : Bool) → (a || b ≡ false) ↔ ((a ≡ false) × (b ≡ false))
or_iff false b = (λ h. (refl, h), λ (p, h). h)
or_iff true b = (λ h. absurd cc, λ (p, h). absurd cc)

module _ (fl : Floats) (config : Config) (headers : Headers) (req : ImageRequest) where
  -- The request says the parameters and passes every guard.
  pub record IsAdmitted (tp : TransformParams fl) : Type 0 where
    pub parsed : TransformParams fl
    pub reads : parse fl (transform_string req) ≡ ok parsed
    pub valid : IsValid fl parsed
    pub overlays : (parsed.draw ≡ []) ⊎ (config.origin.allow_draw_overlays ≡ true)
    pub source :
        (is_absolute_url_source req.image_path ≡ false)
        ⊎ (config.origin.allow_remote_sources ≡ true)
    pub result : tp ≡ apply_scq_override fl (is_slow fl headers) parsed
    pub width : IsWithin config.transform.max_width tp.width
    pub height : IsWithin config.transform.max_height tp.height

  or_refuse-eq-ok :
      (m : Result Fault (TransformParams fl)) (tp : TransformParams fl)
      → (or_refuse fl m ≡ ok tp) ↔ (m ≡ ok tp)
  or_refuse-eq-ok (ok p) tp = (λ h. cc, λ h. cc)
  or_refuse-eq-ok (err panic) tp = (λ h. absurd cc, λ h. absurd cc)
  or_refuse-eq-ok (err (error e)) tp = (λ h. absurd cc, λ h. absurd cc)

  valid_or_refuse-eq-ok :
      (m : Result ParseError (Unit {0})) → (valid_or_refuse fl m ≡ ok tt) ↔ (m ≡ ok tt)
  valid_or_refuse-eq-ok (ok u) = (λ h. refl, λ h. refl)
  valid_or_refuse-eq-ok (err e) = (λ h. absurd cc, λ h. absurd cc)

  checked : (p : TransformParams fl) → (check_options fl p ≡ ok tt) ↔ IsValid fl p
  unfolding check_options
  checked p =
      let (a, b) = valid_or_refuse-eq-ok (validate fl p) in
      let (c, d) = validate_iff fl p in (λ h. c (a h), λ v. b (d v))

  -- the parameters that are used, from those that are read
  abbrev used : TransformParams fl → TransformParams fl
  used p = apply_scq_override fl (is_slow fl headers) p

  check_request-eq-ok :
      (p tp : TransformParams fl)
      → (check_request fl config headers req p ≡ ok tp) ↔ (
          (check_options fl p ≡ ok tt)
          × (has_elements p.draw && not config.origin.allow_draw_overlays ≡ false)
          × (is_absolute_url_source req.image_path && not config.origin.allow_remote_sources
              ≡ false)
          × (exceeds_limits fl config (used p) ≡ false)
          × (tp ≡ used p))
  unfolding check_request
  check_request-eq-ok p tp =
      guards-eq-ok (check_options fl p)
        (has_elements p.draw && not config.origin.allow_draw_overlays)
        (is_absolute_url_source req.image_path && not config.origin.allow_remote_sources)
        (exceeds_limits fl config (used p)) no_overlays no_remote_sources out_of_range (used p) tp

  check_request-IsAdmitted :
      (p tp : TransformParams fl)
      → parse fl (transform_string req) ≡ ok p
      → check_request fl config headers req p ≡ ok tp
      → IsAdmitted tp
  check_request-IsAdmitted p tp reads h =
      let (valid, no_draw, no_remote, small, same) = (check_request-eq-ok p tp).0 h in
      let (w, r) = (or_iff _ _).0 small in
      record {
        parsed = p;
        reads = reads;
        valid = (checked p).0 valid;
        overlays = (draw_gate_iff p.draw config.origin.allow_draw_overlays).0 no_draw;
        source = (gate_iff _ _).0 no_remote;
        result = same;
        width = rw same ((IsWithin_iff _ _).0 w);
        height = rw same ((IsWithin_iff _ _).0 r);
      }

  IsAdmitted-check_request :
      (tp : TransformParams fl) (a : IsAdmitted tp)
      → check_request fl config headers req a.parsed ≡ ok tp
  IsAdmitted-check_request tp a = (check_request-eq-ok a.parsed tp).1 (
    (checked a.parsed).1 a.valid,
    (draw_gate_iff a.parsed.draw config.origin.allow_draw_overlays).1 a.overlays,
    (gate_iff _ _).1 a.source,
    subst (λ t. exceeds_limits fl config t ≡ false) a.result
        ((or_iff _ _).1 (
          (IsWithin_iff config.transform.max_width tp.width).1 a.width,
          (IsWithin_iff config.transform.max_height tp.height).1 a.height,
        )),
    a.result,
  )

  -- A request passes the guards, with given parameters, exactly if its options are read as
  -- parameters that are valid, overlays and absolute sources are named only where the operator allows
  -- them, and the parameters, with the quality for slow connections, are within the operator's limits.
  pub admit_iff : (tp : TransformParams fl) → (admit fl config headers req ≡ ok tp) ↔ IsAdmitted tp
  unfolding admit parse_options
  admit_iff tp = (
    λ h.
        let (p, reads, rest) =
          >>=-eq-ok (parse_options fl req) (check_request fl config headers req) h in
        check_request-IsAdmitted p tp
          ((or_refuse-eq-ok (parse fl (transform_string req)) p).0 reads) rest,
    λ a.
        rw ((or_refuse-eq-ok (parse fl (transform_string req)) a.parsed).1 a.reads)
          (IsAdmitted-check_request tp a),
  )
