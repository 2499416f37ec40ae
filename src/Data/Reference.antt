-- ===== src/Data/Reference.antt =====
-- aegis/data/reference.py
use finance.Base.{
  ℕ, zero, suc, String, Bool, Option, none, some, List, [], ◌∷◌, ◌++◌, contains, if◌then◌else◌,
}
use finance.Base.Dict.{Dict, lookup, insert}
use finance.Base.Float.{FloatOps, lit, ◌⊕◌, ◌⊗◌}
use finance.Config.{travel_rule_thresholds_usd, travel_rule_threshold_default_usd}

pub record WatchlistEntry : Type 0 where
  pub entity_id : String
  pub name : String
  pub list_name : String
  pub is_pep : Bool
  pub kind : String
  pub phonetic : String

pub record Edge (F : Type 0) : Type 0 where
  pub owner_id : String
  pub owned_id : String
  pub pct : F

pub record OwnershipGraph (F : Type 0) : Type 0 where
  pub by_owned : Dict (List (String × F))
  pub sanctioned : List String

module _ {F : Type 0} where
  abbrev owners_or_empty : Option (List (String × F)) → List (String × F)
  owners_or_empty none = []
  owners_or_empty (some os) = os

  -- the loop of `OwnershipGraph.__init__`
  index_edges : List (Edge F) → Dict (List (String × F)) → Dict (List (String × F))
  index_edges [] d = d
  index_edges (e ∷ es) d =
      index_edges es
        (insert e.owned_id (owners_or_empty (lookup e.owned_id d) ++ (e.owner_id, e.pct) ∷ []) d)

  unfoldable pub make_graph : List (Edge F) → List String → OwnershipGraph F
  unfolding index_edges
  make_graph edges sanctioned_ids = record {
    by_owned = index_edges edges [];
    sanctioned = sanctioned_ids;
  }

  unfoldable pub owners_of : OwnershipGraph F → String → List (String × F)
  owners_of g entity_id = owners_or_empty (lookup entity_id g.by_owned)

  unfoldable pub is_sanctioned : OwnershipGraph F → String → Bool
  is_sanctioned g entity_id = contains entity_id g.sanctioned

module _ {F : Type 0} ⦃fl : FloatOps F⦄ where
  -- the loop over the owners, for a given share of an intermediary
  unfoldable pub add_owners : OwnershipGraph F → (String → F) → List (String × F) → F → F
  add_owners g indirect [] total = total
  add_owners g indirect ((owner_id, pct) ∷ os) total =
      add_owners g indirect os
        (if is_sanctioned g owner_id then total ⊕ pct else total ⊕ pct ⊗ indirect owner_id)

  -- `sanctioned_share`, with the levels that are left before `_depth > 4`
  unfoldable pub share_levels : OwnershipGraph F → ℕ → String → F
  unfolding add_owners owners_of is_sanctioned
  share_levels g zero entity_id = lit 0 0
  share_levels g (suc levels) entity_id =
      add_owners g (share_levels g levels) (owners_of g entity_id) (lit 0 0)

  unfoldable pub sanctioned_share : OwnershipGraph F → String → F
  unfolding share_levels
  sanctioned_share g entity_id = share_levels g 5 entity_id

  abbrev or_default : Option F → F
  or_default none = travel_rule_threshold_default_usd
  or_default (some t) = t

  unfoldable pub travel_rule_threshold : String → F
  travel_rule_threshold iso = or_default (lookup iso travel_rule_thresholds_usd)
