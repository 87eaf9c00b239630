-- ===== src/Ddns/Detection/Answers.antt =====
-- Which answer the detection takes.
use domux.Prelude.{◌≡◌, ◌≢◌, ◌⊎◌, refl, List, [], ◌∷◌, arith, inl, inr, Bool-cases}
use domux.Prelude.Result.{Result, ok, err, Result-cases}
use domux.Text.{Text, ◌==◌, trim_space}
use domux.Text.Equality.{eq_iff}
use domux.Core.Types.{Duration}
use domux.Ddns.Detection.{
  HttpDetector, DetectError, failed, empty_result, detect_one, detect_family,
}

module _ {Failure : Type 0} (fetch : Duration → Text → Result Failure Text) (d : HttpDetector) where
  -- The URL answers with a text that is the value between blanks, and the value is not empty.
  pub data Answers (url value : Text) : Type 0 where
    answers :
        (body : Text)
        → fetch d.timeout url ≡ ok body
        → value ≡ trim_space body
        → value ≢ []
        → Answers url value

  -- The URL fails or answers with nothing but blanks, and the error says which.
  pub data IsSilent (label url : Text) : DetectError Failure → Type 0 where
    fails : (e : Failure) → fetch d.timeout url ≡ err e → IsSilent label url (failed label url e)
    blank :
        (body : Text)
        → fetch d.timeout url ≡ ok body
        → trim_space body ≡ []
        → IsSilent label url (empty_result label url)

  -- The value is the answer of the first URL that answers.
  pub data FirstAnswer (label : Text) : List Text → Text → Type 0 where
    here :
        {url : Text} {urls : List Text} {value : Text}
        → Answers url value
        → FirstAnswer label (url ∷ urls) value
    there :
        {url : Text} {urls : List Text} {value : Text} {e : DetectError Failure}
        → IsSilent label url e
        → FirstAnswer label urls value
        → FirstAnswer label (url ∷ urls) value

  -- All URLs are silent, and these are their errors, in order.
  pub data AllSilent (label : Text) : List Text → List (DetectError Failure) → Type 0 where
    no_urls : AllSilent label [] []
    one_more :
        {url : Text} {urls : List Text} {e : DetectError Failure}
        {errs : List (DetectError Failure)}
        → IsSilent label url e
        → AllSilent label urls errs
        → AllSilent label (url ∷ urls) (e ∷ errs)

  url-cases :
      (label url : Text)
      → ((v : Text) × Answers url v) ⊎ ((e : DetectError Failure) × IsSilent label url e)
  url-cases label url = elim (Result-cases (fetch d.timeout url)) [
    | inr (e, refused) ↦ inr (failed label url e, fails e refused)
    | inl (body, answered) ↦ elim (Bool-cases (trim_space body == [])) [
      | inl nothing ↦ inr (
        empty_result label url,
        blank body answered (ground (arith, nothing, eq_iff (trim_space body) [])),
      )
      | inr something ↦ inl (
        trim_space body,
        answers body answered refl (λ e. ground (arith, e, something, eq_iff (trim_space body) [])),
      )
    ]
  ]

  answered-family :
      (label url : Text) (urls : List Text) (v : Text)
      → Answers url v
      → detect_family fetch d label (url ∷ urls) ≡ ok v
  unfolding detect_family detect_one
  answered-family label url urls v (answers body answered trimmed filled) =
      ground (arith, answered, trimmed, filled, eq_iff (trim_space body) [])

  after_silent :
      (label url : Text) (urls : List Text) (e : DetectError Failure)
      → IsSilent label url e
      → (v : Text) → detect_family fetch d label urls ≡ ok v
      → detect_family fetch d label (url ∷ urls) ≡ ok v
  unfolding detect_family detect_one
  after_silent label url urls _ (fails e h) v found = ground (arith, h, found)
  after_silent label url urls _ (blank body h nil) v found =
      ground (arith, h, found, nil, eq_iff (trim_space body) [])

  silent_error :
      (label url : Text) (urls : List Text) (e : DetectError Failure)
      → IsSilent label url e
      → (errs : List (DetectError Failure)) → detect_family fetch d label urls ≡ err errs
      → detect_family fetch d label (url ∷ urls) ≡ err (e ∷ errs)
  unfolding detect_family detect_one
  silent_error label url urls _ (fails e h) errs found = ground (arith, h, found)
  silent_error label url urls _ (blank body h nil) errs found =
      ground (arith, h, found, nil, eq_iff (trim_space body) [])

  -- The detection of a family gives, without the blanks around it, the answer of the first URL that
  -- answers with more than blanks; where there is none, it gives one error for each URL, in order, that
  -- names the URL and says that it failed, and how, or that it answered with blanks.
  pub detect_family-FirstAnswer :
      (label : Text) (urls : List Text)
      → ((v : Text) × ((detect_family fetch d label urls ≡ ok v) × FirstAnswer label urls v))
        ⊎ ((errs : List (DetectError Failure)) × ((detect_family fetch d label urls ≡ err errs)
              × AllSilent label urls errs))
  unfolding detect_family
  detect_family-FirstAnswer label [] = inr ([], (refl, no_urls))
  detect_family-FirstAnswer label (url ∷ urls) = elim (url-cases label url) [
    | inl (v, answer) ↦ inl (v, (answered-family label url urls v answer, here answer))
    | inr (e, silent) ↦ elim (detect_family-FirstAnswer label urls) [
      | inl (v, (found, first)) ↦
          inl (v, (after_silent label url urls e silent v found, there silent first))
      | inr (errs, (none_found, all)) ↦
          inr
            (e ∷ errs, (silent_error label url urls e silent errs none_found, one_more silent all))
    ]
  ]
