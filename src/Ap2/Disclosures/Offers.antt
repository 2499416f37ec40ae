-- ===== src/Ap2/Disclosures/Offers.antt =====
-- The digests that a JSON value offers: the texts of its `_sd` members and of its array
-- placeholders, at any depth.
use finance.Base.{String, List, [], ◌∷◌, ◌++◌, if◌then◌else◌}
use finance.Pipeline.Context.{Outcome, done, raised}
use finance.Ap2.Json.{
  Json, text, array, object, Items, nil, cons, Members, end, member, is_text, iterate,
}
use finance.Ap2.Disclosures.{is_placeholder, placeholder_digest, Dmap}

module _ {N : Type 0} where
  abbrev pub texts : List (Json N) → List String
  texts [] = []
  texts (text s ∷ xs) = s ∷ texts xs
  texts (_ ∷ xs) = texts xs

  abbrev pub texts_of : Outcome (List (Json N)) → List String
  texts_of (raised e) = []
  texts_of (done xs) = texts xs

  unfoldable mutual
    pub offers : Json N → List String
    offers (object ms) = offers_members ms
    offers (array xs) = offers_items xs
    offers _ = []

    pub offers_members : Members N → List String
    offers_members end = []
    offers_members (member k v ms) =
        (if is_text "_sd" k then texts_of (iterate v) else offers v) ++ offers_members ms

    pub offers_items : Items N → List String
    offers_items nil = []
    offers_items (cons x xs) =
        (if is_placeholder x then texts (placeholder_digest x ∷ []) else offers x)
        ++ offers_items xs

  -- those of the values that the disclosures bring
  abbrev pub offers_of_values : Dmap N → List String
  offers_of_values [] = []
  offers_of_values ((g, d) ∷ dmap) = offers d.value ++ offers_of_values dmap
