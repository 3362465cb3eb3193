-- ===== src/LogFiles/Paths.antt =====
-- The cache of paths.
use Prim.Native.Nat.{bit_or}
use mclog.Base.{
  ℕ, ◌+◌, ◌%◌, ◌<◌, ◌≡◌, refl, sym, ◌∙◌, true, false, ◌||◌, not, Text, text_eq→eq, [], ◌∷◌, ◌==◌,
  ==_iff, holds_below, holds_below→holds, is_empty, arith, Bool-cases, inl, inr,
}
use mclog.Message.{Message}
use mclog.LogFiles.{
  LogFileConfig, LogPathCache, cache_key, same_key, find_path, log_path_from_cache, make_path,
  log_path,
}

-- A facility that is a multiple of 8, as all named ones are, and one of the eight severities.
pub record IsRegular (m : Message) : Type 0 where
  pub facility : m.header.facility < 256
  pub multiple : m.header.facility % 8 ≡ 0
  pub severity : m.header.severity < 8

or_table :
    holds_below (λ f. not (f % 8 == 0) || holds_below (λ s. bit_or f s == f + s) 8) 256 ≡ true
unfolding holds_below
or_table = refl

bit_or-regular : (f s : ℕ) → f < 256 → f % 8 ≡ 0 → s < 8 → bit_or f s ≡ f + s
bit_or-regular f s small multiple few =
    let row = holds_below→holds _ 256 f small or_table in
    let zeros : (f % 8 == 0) ≡ true = (==_iff (f % 8) 0).1 multiple in
    let cell : holds_below (λ s. bit_or f s == f + s) 8 ≡ true = ground (arith, row, zeros) in
    (==_iff (bit_or f s) (f + s)).0 (holds_below→holds _ 8 s few cell)

-- The key of a regular message tells its facility.
same_facility :
    (m n : Message)
    → IsRegular m
    → IsRegular n
    → bit_or m.header.facility m.header.severity ≡ bit_or n.header.facility n.header.severity
    → m.header.facility ≡ n.header.facility
same_facility m n rm rn same = omega (
  arith,
  bit_or-regular m.header.facility m.header.severity rm.facility rm.multiple rm.severity,
  bit_or-regular n.header.facility n.header.severity rn.facility rn.multiple rn.severity,
  rm.multiple,
  rn.multiple,
)

module _ (expand : Text → Text → Text → Text → Text) (log_directory : Text) where
  -- Each path in the cache was made of a regular message.
  abbrev pub IsFaithful : LogPathCache → Type 0
  IsFaithful [] = Unit
  IsFaithful ((k, path) ∷ rest) =
      ((m : Message) × (cfg : LogFileConfig) × IsRegular m
        × (k ≡ cache_key m cfg.path_pattern)
        × (path ≡ make_path expand log_directory m cfg))
      × IsFaithful rest

  make_path-same_key :
      (m n : Message) (cfg dfg : LogFileConfig)
      → IsRegular m
      → IsRegular n
      → same_key (cache_key m cfg.path_pattern) (cache_key n dfg.path_pattern) ≡ true
      → make_path expand log_directory m cfg ≡ make_path expand log_directory n dfg
  unfolding same_key cache_key make_path
  make_path-same_key m n cfg dfg rm rn same =
      let fac = same_facility m n rm rn ((==_iff _ _).0 (ground arith)) in
      let host = text_eq→eq m.header.origin.hostname n.header.origin.hostname (ground arith) in
      let app = text_eq→eq m.header.origin.appname n.header.origin.appname (ground arith) in
      let pattern = text_eq→eq cfg.path_pattern dfg.path_pattern (ground arith) in
      rw (fac, host, app, pattern) refl

  find_path-make_path :
      (m : Message) (cfg : LogFileConfig) (cache : LogPathCache)
      → IsRegular m
      → IsFaithful cache
      → is_empty (find_path (cache_key m cfg.path_pattern) cache) ≡ false
      → find_path (cache_key m cfg.path_pattern) cache ≡ make_path expand log_directory m cfg
  find_path-make_path m cfg [] regular faithful found = absurd (ground arith)
  find_path-make_path m cfg ((k, path) ∷ rest) regular faithful found =
      let (n, dfg, rn, made, at) = faithful.0 in
      elim (Bool-cases (same_key (cache_key m cfg.path_pattern) k)) [
        | inl hit ↦
            let key : same_key (cache_key m cfg.path_pattern) (cache_key n dfg.path_pattern)
                ≡ true =
              rw (sym made) hit in
            rw hit (at ∙ sym (make_path-same_key m n cfg dfg regular rn key))
        | inr miss ↦
            let later : is_empty (find_path (cache_key m cfg.path_pattern) rest) ≡ false =
              ground (arith, miss) in
            rw miss (find_path-make_path m cfg rest regular faithful.1 later)
      ]

  -- With a cache filled by regular messages, `LogPath` gives a regular message the path that its
  -- own names and the pattern make, and the cache stays such.
  pub log_path-make_path :
      (m : Message) (cfg : LogFileConfig) (cache : LogPathCache)
      → IsRegular m
      → IsFaithful cache
      → ((log_path expand log_directory m cfg cache).0 ≡ make_path expand log_directory m cfg)
        × IsFaithful (log_path expand log_directory m cfg cache).1
  unfolding log_path log_path_from_cache
  log_path-make_path m cfg cache regular faithful =
      elim (Bool-cases (is_empty (find_path (cache_key m cfg.path_pattern) cache))) [
        | inl fresh ↦ rw fresh (refl, ((m, cfg, regular, refl, refl), faithful))
        | inr known ↦ rw known (find_path-make_path m cfg cache regular faithful known, faithful)
      ]
