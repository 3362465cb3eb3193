-- ===== src/LogFiles/Dispatch.antt =====
-- Each chosen file gets the message once.
use mclog.Base.{
  ◌≡◌, refl, sym, ap, ◌∙◌, Bool, false, Text, text_eq, text_eq_self, text_eq_sym, List, [], ◌∷◌,
  Option, none, some, if◌then◌else◌, >>=-eq-some, arith, Bool-cases, inl, inr,
}
use mclog.Roll.{Calendar}
use mclog.Message.{Bytes, Message, StreamIo}
use mclog.LogFile.{Files, LogFile, World}
use mclog.LogFiles.{LogFileConfig, has_entry, Store, put, handle, handle_all}

-- No path stands twice.
abbrev pub IsApart : List (Text × LogFileConfig) → Type 0
IsApart [] = Unit
IsApart ((p, cfg) ∷ rest) = (has_entry p rest ≡ false) × IsApart rest

module _ (cal : Calendar) (io : StreamIo) (print : Message → Bytes) (w : World) (m : Message) where
  -- What is at each of the paths is what handling the message there makes of it.
  abbrev pub IsHandled : List (Text × LogFileConfig) → Store → Store → Type 0
  IsHandled [] st st' = Unit
  IsHandled ((p, cfg) ∷ rest) st st' =
      ((ok : Bool) × (handle cal io print w m cfg (st p) ≡ some (ok, st' p)))
      × IsHandled rest st st'

  put-IsHandled :
      (p : Text) (v : Option LogFile × Files) (paths : List (Text × LogFileConfig)) (st st' : Store)
      → has_entry p paths ≡ false
      → IsHandled paths (put p v st) st'
      → IsHandled paths st st'
  put-IsHandled p v [] st st' apart h = tt
  put-IsHandled p v ((q, cfg) ∷ rest) st st' apart h =
      let away : text_eq p q ≡ false = ground (arith, text_eq_sym p q) in
      let same : put p v st q ≡ st q = rw away refl in
      ((h.0.0, rw (sym same) h.0.1), put-IsHandled p v rest st st' (ground arith) h.1)

  abbrev store_of : Store → Option (Bool × Store) → Store
  store_of st none = st
  store_of st (some r) = r.1

  others_stay :
      (p x : Text) (v : Option LogFile × Files) (cfg : LogFileConfig)
      (rest : List (Text × LogFileConfig)) (st st1 : Store)
      → st1 x ≡ (if has_entry x rest then st1 x else put p v st x)
      → st1 x ≡ (if has_entry x ((p, cfg) ∷ rest) then st1 x else st x)
  others_stay p x v cfg rest st st1 stay = elim (Bool-cases (text_eq p x)) [
    | inl here ↦ rw here refl
    | inr away ↦
        let kept : put p v st x ≡ st x = rw away refl in
        rw away (stay ∙ ap (λ z. if has_entry x rest then st1 x else z) kept)
  ]

  -- Over paths that stand once each, every path's file handles the message once and from its own
  -- state, and the files at all other paths stay as they are.
  pub handle_all_lem :
      (paths : List (Text × LogFileConfig)) (st : Store) {rc : Bool} {st' : Store}
      → IsApart paths
      → handle_all cal io print w m paths st ≡ some (rc, st')
      → IsHandled paths st st' × ((p : Text) → st' p ≡ (if has_entry p paths then st' p else st p))
  unfolding handle_all
  handle_all_lem [] st apart h = (tt, λ p. ap (λ o. (store_of st o) p) (sym h))
  handle_all_lem ((p, cfg) ∷ rest) st {st' = st'} apart h =
      let (r, one, h1) = >>=-eq-some (handle cal io print w m cfg (st p)) _ h in
      let (q, others, h2) = >>=-eq-some (handle_all cal io print w m rest (put p r.1 st)) _ h1 in
      let same : q.1 ≡ st' = ap (store_of st) h2 in
      let (done, stay) = handle_all_lem rest (put p r.1 st) apart.1 others in
      let at : q.1 p ≡ r.1 = stay p ∙ rw (apart.0, text_eq_self p) refl in
      rw (sym same) (
        (
          (r.0, one ∙ ap (λ v. some (r.0, v)) (sym at)),
          put-IsHandled p r.1 rest st q.1 apart.0 done,
        ),
        λ x. others_stay p x r.1 cfg rest st q.1 (stay x),
      )
