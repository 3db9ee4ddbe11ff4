-- ===== src/Policy/Learned/Beneath.antt =====
-- What operators add stands in front of the repository's rules and changes nothing else.
use diffuse.Prelude.{◌≡◌, Option, none, some, List, Text}
use diffuse.Policy.{ResolvedRule, GuidanceDocument, PathPolicy, ReviewPolicy, Confidence}
use diffuse.Policy.Query.{allows_path, allows_severity, allows_preventative_security, threshold_for}
use diffuse.Policy.Learned.{with_rules, with_documents}

abbrev pub mapped {ℓ} : {A B : Type ℓ} → (A → B) → Option A → Option B
mapped f none = none
mapped f (some a) = some (f a)

module _ {C : Type 0} ⦃c : Confidence C⦄ where
  -- The two policies allow the same of a path.
  pub record AllowsSame (before after : ReviewPolicy C) (path : Text) : Type 0 where
    pub same_path : allows_path after path ≡ allows_path before path
    pub same_severity :
        (severity : Text)
        → allows_severity after path severity ≡ allows_severity before path severity
    pub same_preventative :
        allows_preventative_security after path ≡ allows_preventative_security before path
    pub same_threshold : threshold_for after path ≡ threshold_for before path

  module _ (rules : Text → List ResolvedRule) (documents : Text → List GuidanceDocument) where
    abbrev adding : PathPolicy C → PathPolicy C
    adding p = with_rules (rules p.file_path) (with_documents (documents p.file_path) p)
