-- ===== src/LogFiles/Selection.antt =====
-- The files that a message goes to.
use mclog.Base.{
  ◌≡◌, refl, sym, Bool, true, false, ◌&&◌, ◌||◌, Text, text_eq, text_eq_sym, text_eq→eq, List, [],
  ◌∷◌, ◌++◌, Option, arith, Bool-cases, inl, inr,
}
use mclog.Message.{Message}
use mclog.LogFiles.{
  LogFileConfig, LogPathCache, make_path, log_path, has_entry, accepted, log_path_configs_from,
  log_path_configs,
}
use mclog.LogFiles.Dispatch.{IsApart}
use mclog.LogFiles.Paths.{IsRegular, IsFaithful, log_path-make_path}

module _ (expand : Text → Text → Text → Text → Text) (log_directory : Text)
    (parse : Text → Message → Option Bool) (m : Message) where
  -- Some configuration accepts the message and gives it this path.
  abbrev pub is_wanted : Text → List LogFileConfig → Bool
  is_wanted p [] = false
  is_wanted p (cfg ∷ cfgs) =
      (accepted expand log_directory parse cfg m
        && text_eq (make_path expand log_directory m cfg) p)
      || is_wanted p cfgs

  has_entry-append :
      (p q : Text) (cfg : LogFileConfig) (found : List (Text × LogFileConfig))
      → has_entry p (found ++ (q, cfg) ∷ []) ≡ (has_entry p found || text_eq q p)
  has_entry-append p q cfg [] = ground arith
  has_entry-append p q cfg ((r, d) ∷ found) = ground (arith, has_entry-append p q cfg found)

  append-IsApart :
      (q : Text) (cfg : LogFileConfig) (found : List (Text × LogFileConfig))
      → IsApart found
      → has_entry q found ≡ false
      → IsApart (found ++ (q, cfg) ∷ [])
  append-IsApart q cfg [] apart new = (refl, tt)
  append-IsApart q cfg ((p, d) ∷ found) apart new = (
    ground (arith, has_entry-append p q cfg found, apart.0, text_eq_sym p q),
    append-IsApart q cfg found apart.1 (ground arith),
  )

  listed :
      (p q : Text) (found : List (Text × LogFileConfig))
      → has_entry q found ≡ true
      → text_eq q p ≡ true
      → has_entry p found ≡ true
  listed p q found known same = rw (sym (text_eq→eq q p same)) known

  log_path_configs_from_lem :
      (cfgs : List LogFileConfig) (found : List (Text × LogFileConfig)) (cache : LogPathCache)
      → IsRegular m
      → IsFaithful expand log_directory cache
      → IsApart found
      → let (paths, cache') = log_path_configs_from expand log_directory parse m cfgs found cache in
        IsApart paths
        × IsFaithful expand log_directory cache'
        × ((p : Text) → has_entry p paths ≡ (has_entry p found || is_wanted p cfgs))
  unfolding log_path_configs_from
  log_path_configs_from_lem [] found cache regular faithful apart =
      (apart, faithful, λ p. ground arith)
  log_path_configs_from_lem (cfg ∷ cfgs) found cache regular faithful apart =
      let q = (log_path expand log_directory m cfg cache).0 in
      let cache1 = (log_path expand log_directory m cfg cache).1 in
      let (made, faithful1) =
        log_path-make_path expand log_directory m cfg cache regular faithful in
      elim (Bool-cases (accepted expand log_directory parse cfg m)) [
        | inr refused ↦
            let (a, b, all) = log_path_configs_from_lem cfgs found cache regular faithful apart in
            rw refused (a, b, λ p. ground (arith, refused, all p))
        | inl taken ↦ elim (Bool-cases (has_entry q found)) [
          | inl known ↦
              let (a, b, all) =
                log_path_configs_from_lem cfgs found cache1 regular faithful1 apart in
              rw (taken, known)
                (a, b, λ p. ground (arith, taken, made, all p, listed p q found known))
          | inr new ↦
              let apart1 = append-IsApart q cfg found apart new in
              let (a, b, all) =
                log_path_configs_from_lem cfgs (found ++ (q, cfg) ∷ []) cache1 regular faithful1
                  apart1 in
              rw (taken, new)
                (a, b, λ p. ground (arith, taken, made, all p, has_entry-append p q cfg found))
        ]
      ]

-- With a cache filled by regular messages, a regular message goes to each path once, and to
-- exactly the paths that the accepting configurations make for it; the cache stays such.
pub log_path_configs_lem :
    (expand : Text → Text → Text → Text → Text) (log_directory : Text)
    (parse : Text → Message → Option Bool) (m : Message) (cfgs : List LogFileConfig)
    (cache : LogPathCache)
    → IsRegular m
    → IsFaithful expand log_directory cache
    → let (paths, cache') = log_path_configs expand log_directory parse m cfgs cache in
      IsApart paths
      × IsFaithful expand log_directory cache'
      × ((p : Text) → has_entry p paths ≡ is_wanted expand log_directory parse m p cfgs)
unfolding log_path_configs
log_path_configs_lem expand log_directory parse m cfgs cache regular faithful =
    log_path_configs_from_lem expand log_directory parse m cfgs [] cache regular faithful tt
