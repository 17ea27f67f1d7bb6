-- ===== src/Versioning/Snapshot.antt =====
-- The results of the decorated methods of versioning.py come from a run under one generation.
use cat_graphrag.Prelude.{
  ◌≡◌, refl, true, Option, none, some, Outcome, ok, raised, Exec, if◌then◌else◌, Bool-cases, inl,
  inr, continue, pure, raise, ◌>>=◌, ◌>>◌,
}
use cat_graphrag.Prelude.Keys.{Str, str_eq, str_eq_iff}
use cat_graphrag.Epoch.{Handler, versioned_names, rebuild_for_generation}
use cat_graphrag.Versioning.{
  Failure, changed_again, is_generation, aligned, probed, align, rebuild, ensure_version,
  retry_on_generation_change,
}

-- The names that a handler has are those of its generation.
abbrev pub IsCoherent : Handler → Type 0
IsCoherent h = (g : Str) → h.generation ≡ some g → h.names ≡ some (versioned_names h g)

-- The handler is set to the generation `g`, with the names of `g`.
abbrev pub IsAt : Str → Handler → Type 0
IsAt g h = (h.generation ≡ some g) × (h.names ≡ some (versioned_names h g))

rebuild-IsAt : (h : Handler) (g : Str) → IsAt g (rebuild_for_generation h g)
unfolding rebuild_for_generation versioned_names
rebuild-IsAt h g = (refl, refl)

aligned-IsAt : (g : Str) (h : Handler) → IsCoherent h → IsAt g (aligned h g)
unfolding aligned
aligned-IsAt g h c = at h.generation refl
  where
    at :
        (o : Option Str)
        → h.generation ≡ o
        → IsAt g (if is_generation o g then h else rebuild_for_generation h g)
    at none e = rebuild-IsAt h g
    at (some k) e = elim (Bool-cases (str_eq k g)) [
      | inl same ↦ let k_g = (str_eq_iff k g).0 same in rw same (rw (← k_g) (e, c k e))
      | inr differ ↦ rw differ (rebuild-IsAt h g)
    ]

module _ {W E A : Type 0} (probe : Exec W (Failure E) Str)
    (fn : Exec (Handler × W) (Failure E) A) where
  -- `fn` ran in the state `s`, in which the generation that the probe before it read is set, and
  -- returned `a`.
  pub record RanUnder (g : Str) (a : A) : Type 0 where
    pub start : Handler × W
    pub earlier : W
    pub finish : Handler × W
    pub read : probe earlier ≡ (ok g, start.1)
    pub set : IsAt g start.0
    pub returned : fn start ≡ (ok a, finish)

  -- The same, and a probe after it read the same generation, which ends in the world `last`.
  pub record Stable (a : A) (last : Handler × W) : Type 0 where
    pub gen : Str
    pub run : RanUnder gen a
    pub again : probe run.finish.1 ≡ (ok gen, last.1)
    pub kept : last.0 ≡ run.finish.0

  -- For a handler whose names are those of its generation: a value that `ensure_version` returns
  -- comes from one run of the method, under the generation that the probe before it read.
  pub ensure_version-RanUnder :
      (h : Handler) (w : W) (a : A) (last : Handler × W)
      → IsCoherent h
      → ensure_version probe fn (h, w) ≡ (ok a, last)
      → (g : Str) × (run : RanUnder g a) × (run.earlier ≡ w) × (run.finish ≡ last)
  unfolding ensure_version
  ensure_version-RanUnder h w a last c q = after (probe w) refl q
    where
      after :
          (m : Outcome (Failure E) Str × W)
          → probe w ≡ m
          → continue m.0 (λ gen. align probe gen >> fn) (h, m.1) ≡ (ok a, last)
          → (g : Str) × (run : RanUnder g a) × (run.earlier ≡ w) × (run.finish ≡ last)
      after (ok g, w') e q' = (
        g,
        record {
          start = (aligned h g, w');
          earlier = w;
          finish = last;
          read = e;
          set = aligned-IsAt g h c;
          returned = q';
        },
        refl,
        refl,
      )
      after (raised f, w') e q' = cc

  -- The method runs again after a change of the generation.
  abbrev second : Str → Exec (Handler × W) (Failure E) A
  second after = do
    rebuild probe after
    result' ← fn
    final ← probed probe
    if str_eq final after then pure result' else raise (changed_again after final)

  close :
      (g : Str) (a a' : A) (last : Handler × W) (run : RanUnder g a) (x : Str) (w' : W)
      → probe run.finish.1 ≡ (ok x, w')
      → str_eq x g ≡ true
      → ◌≡◌ {A = Outcome (Failure E) A × (Handler × W)} (ok a, (run.finish.0, w')) (ok a', last)
      → Stable a' last
  close g a a' last run x w' e same q =
      let same_value : a ≡ a' = cc in
      let same_end : ◌≡◌ {A = Handler × W} (run.finish.0, w') last = cc in
      rw (← same_value, ← same_end)
        (record { gen = g; run = run; again = rw (← (str_eq_iff x g).0 same) e; kept = refl })

  -- The end of a run: a second probe, and what follows on the same and on another generation.
  ended :
      (g : Str) (a a' : A) (last : Handler × W) (run : RanUnder g a)
      (otherwise : Str → Exec (Handler × W) (Failure E) A)
      → ((x : Str) (w' : W)
          → probe run.finish.1 ≡ (ok x, w')
          → otherwise x (run.finish.0, w') ≡ (ok a', last)
          → Stable a' last)
      → (m : Outcome (Failure E) Str × W) → probe run.finish.1 ≡ m
      → continue m.0 (λ x. if str_eq x g then pure a else otherwise x) (run.finish.0, m.1)
        ≡ (ok a', last)
      → Stable a' last
  ended g a a' last run otherwise next (ok x, w') e q = elim (Bool-cases (str_eq x g)) [
    | inl same ↦ close g a a' last run x w' e same (rw same at q)
    | inr differ ↦ next x w' e (rw differ at q)
  ]
  ended g a a' last run otherwise next (raised f, w') e q = cc

  second-Stable :
      (g : Str) (h : Handler) (w w' : W) (a : A) (last : Handler × W)
      → probe w ≡ (ok g, w')
      → second g (h, w') ≡ (ok a, last)
      → Stable a last
  second-Stable g h w w' a last e q = after (fn start) refl q
    where
      start : Handler × W
      start = (rebuild_for_generation h g, w')

      after :
          (m : Outcome (Failure E) A × (Handler × W))
          → fn start ≡ m
          → continue m.0
              (λ b. probed probe >>= λ x. if str_eq x g then pure b else raise (changed_again g x))
              m.1
            ≡ (ok a, last)
          → Stable a last
      after (ok b, s') f q' =
          ended g b a last
            (record {
              start = start;
              earlier = w;
              finish = s';
              read = e;
              set = rebuild-IsAt h g;
              returned = f;
            })
            (λ x. raise (changed_again g x)) (λ x w'' p r. cc) (probe s'.1) refl q'
      after (raised b, s') f q' = cc

  -- For a handler whose names are those of its generation: a value that `retry_on_generation_change`
  -- returns comes from one whole run of the method, under the generation that the probe before it
  -- read, and the probe after it read the same one.
  pub retry_on_generation_change-Stable :
      (h : Handler) (w : W) (a : A) (last : Handler × W)
      → IsCoherent h
      → retry_on_generation_change probe fn (h, w) ≡ (ok a, last)
      → Stable a last
  unfolding retry_on_generation_change
  retry_on_generation_change-Stable h w a last c q = before (probe w) refl q
    where
      ran :
          (g : Str) (w' : W)
          → probe w ≡ (ok g, w')
          → (m : Outcome (Failure E) A × (Handler × W)) → fn (aligned h g, w') ≡ m
          → continue m.0 (λ b. probed probe >>= λ x. if str_eq x g then pure b else second x) m.1
            ≡ (ok a, last)
          → Stable a last
      ran g w' e (ok b, s') f q' =
          ended g b a last
            (record {
              start = (aligned h g, w');
              earlier = w;
              finish = s';
              read = e;
              set = aligned-IsAt g h c;
              returned = f;
            })
            second (λ x w'' p r. second-Stable x s'.0 s'.1 w'' a last p r) (probe s'.1) refl q'
      ran g w' e (raised b, s') f q' = cc

      before :
          (m : Outcome (Failure E) Str × W)
          → probe w ≡ m
          → continue m.0
              (λ g.
                align probe g
                >> (fn >>= λ b. probed probe >>= λ x. if str_eq x g then pure b else second x))
              (h, m.1)
            ≡ (ok a, last)
          → Stable a last
      before (ok g, w') e q' = ran g w' e (fn (aligned h g, w')) refl q'
      before (raised f, w') e q' = cc
