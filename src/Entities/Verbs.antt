-- ===== src/Entities/Verbs.antt =====
-- The table of verbs in constants.py.
use cat_graphrag.Prelude.{[], ◌∷◌}
use cat_graphrag.Prelude.Keys.{Str}
use cat_graphrag.Prelude.Texts.{codes}
use cat_graphrag.Prelude.Dict.{Dict}

-- VERB_TO_RELATION_TYPE
abbrev pub verb_to_relation_type : Dict Str Str
verb_to_relation_type =
    (codes "use", codes "USES")
    ∷ (codes "utilize", codes "USES")
    ∷ (codes "employ", codes "USES")
    ∷ (codes "leverage", codes "USES")
    ∷ (codes "create", codes "CREATES")
    ∷ (codes "build", codes "CREATES")
    ∷ (codes "make", codes "CREATES")
    ∷ (codes "generate", codes "CREATES")
    ∷ (codes "develop", codes "DEVELOPS")
    ∷ (codes "write", codes "DEVELOPS")
    ∷ (codes "code", codes "DEVELOPS")
    ∷ (codes "implement", codes "IMPLEMENTS")
    ∷ (codes "support", codes "SUPPORTS")
    ∷ (codes "provide", codes "SUPPORTS")
    ∷ (codes "extend", codes "EXTENDS")
    ∷ (codes "inherit", codes "INHERITS")
    ∷ (codes "derive", codes "INHERITS")
    ∷ (codes "include", codes "INCLUDES")
    ∷ (codes "contain", codes "CONTAINS")
    ∷ (codes "embed", codes "INCLUDES")
    ∷ (codes "integrate", codes "INTEGRATES")
    ∷ (codes "connect", codes "INTEGRATES")
    ∷ (codes "depend", codes "DEPENDS_ON")
    ∷ (codes "require", codes "DEPENDS_ON")
    ∷ (codes "need", codes "DEPENDS_ON")
    ∷ (codes "define", codes "DEFINES")
    ∷ (codes "represent", codes "REPRESENTS")
    ∷ (codes "describe", codes "DEFINES")
    ∷ (codes "replace", codes "REPLACES")
    ∷ (codes "supersede", codes "REPLACES")
    ∷ (codes "call", codes "CALLS")
    ∷ (codes "invoke", codes "CALLS")
    ∷ (codes "be", codes "IS_A")
    ∷ (codes "design", codes "DESIGNS")
    ∷ (codes "name", codes "NAMED")
    ∷ (codes "become", codes "BECOMES")
    ∷ (codes "produce", codes "PRODUCES")
    ∷ (codes "cause", codes "CAUSES")
    ∷ (codes "lead", codes "LEADS_TO")
    ∷ (codes "affect", codes "AFFECTS")
    ∷ (codes "prevent", codes "PREVENTS")
    ∷ (codes "help", codes "HELPS")
    ∷ (codes "improve", codes "IMPROVES")
    ∷ (codes "reduce", codes "REDUCES")
    ∷ (codes "increase", codes "INCREASES")
    ∷ []
