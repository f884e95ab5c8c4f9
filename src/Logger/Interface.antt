-- ===== src/Logger/Interface.antt =====
-- The class of logger.h, with what it promises; and logger.cpp as such.
use vector_engine.Common.{◌≡◌, refl, subst}
use vector_engine.Errors.{Outcome, ok, >>=-eq-ok, ok-injective}
use vector_engine.Logger.{
  Spdlog, Logger, LoggerOptions, level_of, instance_logger, use_pattern, init, get,
}

module _ (s : Spdlog) where
  pub record LoggerClass : Type 0 where
    pub instance_of : Logger s
    pub initialise : LoggerOptions → Logger s → Outcome (Logger s)
    pub access : Logger s → Outcome s.SpdLogger
    pub initialise_law :
        (opts : LoggerOptions) (l : Logger s) {l' : Logger s}
        → initialise opts l ≡ ok l'
        → (x : s.SpdLogger) × (access l' ≡ ok x)

  -- After `init` the assertion of `get` holds.
  pub get-init :
      (opts : LoggerOptions) (l : Logger s) {l' : Logger s}
      → init s opts l ≡ ok l'
      → (x : s.SpdLogger) × (get s l' ≡ ok x)
  unfolding init get
  get-init opts l {l'} h =
      let (opened, e, k) =
        >>=-eq-ok (s.rotating_logger opts.path opts.max_size opts.max_files) _ h in
      let (level, e', k') = >>=-eq-ok (level_of opts.level) _ k in
      subst (λ (q : Logger s). (x : s.SpdLogger) × (get s q ≡ ok x)) (ok-injective k')
        (use_pattern s (s.set_level opened level) opts.pattern, refl)

  abbrev pub logger_class : LoggerClass
  logger_class = record {
    instance_of = instance_logger s;
    initialise = init s;
    access = get s;
    initialise_law = get-init;
  }
