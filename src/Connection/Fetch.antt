-- ===== src/Connection/Fetch.antt =====
-- `encryptedFetch` of `public/js/shell-sessions.js`: how an answer of the server's API is told. The data
-- are a parameter: what the page reads off them here is their field `error`.
use shells.Prelude.{
  ℕ, ◌≤◌, ◌<◌, ◌≡◌, ◌⊎◌, ◌↔◌, refl, ap, ◌∙◌, inl, inr, Bool, true, false, ◌&&◌, not, Option, none,
  some, [], ◌++◌, Str, codes, ◌==◌, nat_eq, str_eq, if◌then◌else◌, leb, ltb, Bool-cases, arith,
  str_eqb_iff, eqb_iff,
}
use shells.Backends.Text.{pos, print}

-- An answer: its status, and its body after the decryption, where it is encrypted, and the parsing; the
-- message of the exception where one of these throws.
pub data Body (D : Type 0) : Type 0 where
  parsed : D → Body D
  thrown : Str → Body D

pub record Response (D : Type 0) : Type 0 where
  pub status : ℕ
  pub body : Body D

pub record Fetched (D : Type 0) : Type 0 where
  pub ok : Bool
  pub status : ℕ
  pub data_read : Option D
  pub error : Option Str

-- `res.ok`
abbrev pub is_success : ℕ → Bool
is_success status = leb 200 status && ltb status 300

-- `HTTP ${res.status}`
unfoldable pub http_error : ℕ → Str
unfolding print
http_error status = codes "HTTP " ++ print (pos status)

abbrev pub failure : {D : Type 0} → ℕ → Option D → Str → Fetched D
failure status d message = record {
  ok = false;
  status = status;
  data_read = d;
  error = some message;
}

module _ {D : Type 0} (error_of : D → Str) where
  -- A missing error is the empty text.
  unfoldable pub classify : ℕ → D → Fetched D
  unfolding http_error
  classify status d =
      if not (error_of d == [])
      then failure status (some d) (error_of d)
      else if not (is_success status)
      then failure status (some d) (http_error status)
      else record { ok = true; status = status; data_read = some d; error = none }

  unfoldable pub read_body : ℕ → Body D → Fetched D
  unfolding classify
  read_body status (parsed d) = classify status d
  read_body status (thrown message) = failure status none message

  unfoldable pub on_response : Response D → Fetched D
  unfolding read_body
  on_response r =
      if r.status == 204
      then record { ok = true; status = 204; data_read = none; error = none }
      else read_body r.status r.body

  -- None where it throws: without a key, or where the request fails.
  unfoldable pub encrypted_fetch : Bool → Option (Response D) → Option (Fetched D)
  unfolding on_response
  encrypted_fetch false r = none
  encrypted_fetch true none = none
  encrypted_fetch true (some r) = some (on_response r)

  -- The answer is a success.
  abbrev pub Succeeds : Response D → Type 0
  Succeeds r =
      (r.status ≡ 204)
      ⊎ ((d : D) × (r.body ≡ parsed d) × (error_of d ≡ []) × (200 ≤ r.status) × (r.status < 300))

  abbrev IsRead : ℕ → Body D → Type 0
  IsRead status b = (d : D) × (b ≡ parsed d) × (error_of d ≡ []) × (200 ≤ status) × (status < 300)

  -- What is told of an answer fits it.
  abbrev Fits : Fetched D → Type 0 → Type 0
  Fits f P = ((f.ok ≡ true) ↔ P) × ((f.ok ≡ true) ↔ (f.error ≡ none))

  failed-Fits :
      (status : ℕ) (d : Option D) (e : Str) {P : Type 0} → (P → ⊥) → Fits (failure status d e) P
  failed-Fits status d e n = (((λ p. cc), (λ p. absurd (n p))), ((λ p. cc), (λ p. cc)))

  classify-Fits : (status : ℕ) (d : D) → Fits (classify status d) (IsRead status (parsed d))
  unfolding classify
  classify-Fits status d = elim (Bool-cases (error_of d == [])) [
    | inr e ↦ rw e (failed-Fits status (some d) (error_of d) (λ r. spoilt e r))
    | inl e ↦ elim (Bool-cases (is_success status)) [
      | inr f ↦ rw (e, f) (failed-Fits status (some d) (http_error status) (λ r. outside f r))
      | inl f ↦ rw (e, f) (((λ p. read e f), (λ r. refl)), ((λ p. refl), (λ p. refl)))
    ]
  ]
    where
      parsed_inj : {u v : D} → parsed u ≡ parsed v → u ≡ v
      parsed_inj p = cc

      spoilt : (error_of d == []) ≡ false → IsRead status (parsed d) → ⊥
      spoilt e (d', p, q, lo, hi) =
          cc (e, (str_eqb_iff (error_of d) []).1 (ap error_of (parsed_inj p) ∙ q))

      outside : is_success status ≡ false → IsRead status (parsed d) → ⊥
      outside f (d', p, q, lo, hi) = ground arith

      read : (error_of d == []) ≡ true → is_success status ≡ true → IsRead status (parsed d)
      read e f = (d, refl, (str_eqb_iff (error_of d) []).0 e, ground arith, ground arith)

  read_body-Fits : (status : ℕ) (b : Body D) → Fits (read_body status b) (IsRead status b)
  unfolding read_body
  read_body-Fits status (parsed d) = classify-Fits status d
  read_body-Fits status (thrown m) = failed-Fits status none m (λ (d, p, e, lo, hi). cc p)

  -- A request that does not throw is told as a success exactly where its status is 204, or it is another
  -- one from 200 to 299 and the body can be read and has no error; a failure always comes with an error
  -- text, and a success never does.
  pub on_response_lem :
      (r : Response D)
      → (((on_response r).ok ≡ true) ↔ Succeeds r)
        × (((on_response r).ok ≡ true) ↔ ((on_response r).error ≡ none))
  unfolding on_response
  on_response_lem r = elim (Bool-cases (r.status == 204)) [
    | inl e ↦
        rw e (((λ p. inl ((eqb_iff r.status 204).0 e)), (λ s. refl)), ((λ p. refl), (λ p. refl)))
    | inr e ↦ rw e (
        let fits = read_body-Fits r.status r.body in
        (((λ p. inr (fits.0.0 p)), (λ s. fits.0.1 (other e s))), fits.1))
  ]
    where
      other : (r.status == 204) ≡ false → Succeeds r → IsRead r.status r.body
      other e (inl p) = cc (e, (eqb_iff r.status 204).1 p)
      other e (inr s) = s
