-- ===== src/Ap2/Json.antt =====
-- The JSON values of aegis/ap2: what `json.loads` gives and `json.dumps` takes. `N` stands for
-- Python's int, float and bool, which compare with one another. A key that a disclosure brings need
-- not be a text, so keys are values too.
use Prim.Native.String.{String}
use finance.Base.{Bool, true, false, List, [], ◌∷◌, ℕ, suc, ◌==◌, ◌&&◌, leb, if◌then◌else◌}
use finance.Base.Int.{ℤ}
use finance.Pipeline.Context.{Outcome, done, raised}

pub record Numbers (N : Type 0) : Type 0 where
  -- `a == b`
  pub same : N → N → Bool
  -- `bool(a)`
  pub truthy : N → Bool
  pub of_int : ℤ → N

mutual
  pub data Json (N : Type 0) : Type 0 where
    null : Json N
    number : N → Json N
    text : String → Json N
    array : Items N → Json N
    object : Members N → Json N

  pub data Items (N : Type 0) : Type 0 where
    nil : Items N
    cons : Json N → Items N → Items N

  pub data Members (N : Type 0) : Type 0 where
    end : Members N
    member : Json N → Json N → Members N → Members N

module _ {N : Type 0} where
  abbrev pub elements : Items N → List (Json N)
  elements nil = []
  elements (cons x xs) = x ∷ elements xs

  abbrev pub items : List (Json N) → Items N
  items [] = nil
  items (x ∷ xs) = cons x (items xs)

  abbrev pub keys : Members N → List (Json N)
  keys end = []
  keys (member k v ms) = k ∷ keys ms

  -- a key that is this text
  abbrev pub is_text : String → Json N → Bool
  is_text s (text t) = t == s
  is_text s _ = false

  abbrev pub hashable : Json N → Bool
  hashable (array xs) = false
  hashable (object ms) = false
  hashable _ = true

  abbrev pub find : String → Json N → Members N → Json N
  find k default end = default
  find k default (member j v ms) = if is_text k j then v else find k default ms

  abbrev pub size : Members N → ℕ
  size end = 0
  size (member k v ms) = suc (size ms)

  -- `node.get(k, default)`: only a dict has `get`
  unfoldable pub get_or : String → Json N → Json N → Outcome (Json N)
  get_or k default (object ms) = done (find k default ms)
  get_or k default _ = raised "AttributeError"

  -- `node.get(k)`
  abbrev pub get : String → Json N → Outcome (Json N)
  get k node = get_or k null node

  -- the characters of a text
  abbrev pub characters : String → List (Json N)
  characters String.[] = []
  characters (String.◌∷◌ c s) = text (String.◌∷◌ c String.[]) ∷ characters s

  -- `for x in node`
  unfoldable pub iterate : Json N → Outcome (List (Json N))
  iterate (array xs) = done (elements xs)
  iterate (object ms) = done (keys ms)
  iterate (text s) = done (characters s)
  iterate _ = raised "TypeError"

module _ {N : Type 0} ⦃ns : Numbers N⦄ where
  -- `bool(node)`
  abbrev pub truthy : Json N → Bool
  truthy null = false
  truthy (number n) = ns.truthy n
  truthy (text String.[]) = false
  truthy (text _) = true
  truthy (array nil) = false
  truthy (array _) = true
  truthy (object end) = false
  truthy (object _) = true

  -- `j == k` for keys, which are not lists or dicts
  abbrev pub same_key : Json N → Json N → Bool
  same_key null null = true
  same_key (number a) (number b) = ns.same a b
  same_key (text s) (text t) = s == t
  same_key _ _ = false

  abbrev pub has_key : Json N → Members N → Bool
  has_key k end = false
  has_key k (member j v ms) = if same_key j k then true else has_key k ms

  abbrev pub value_at : Json N → Members N → Json N
  value_at k end = null
  value_at k (member j v ms) = if same_key j k then v else value_at k ms

  -- `out[k] = v`
  unfoldable pub put : Json N → Json N → Members N → Members N
  put k v end = member k v end
  put k v (member j w ms) =
      let rest = put k v ms in if same_key j k then member j v ms else member j w rest

-- `a == b`; dicts are equal with the same keys and equal values under each, in any order.
module _ {N : Type 0} ⦃ns : Numbers N⦄ where
  unfoldable mutual
    pub same_json : Json N → Json N → Bool
    same_json null null = true
    same_json (number a) (number b) = ns.same a b
    same_json (text s) (text t) = s == t
    same_json (array xs) (array ys) = same_items xs ys
    same_json (object ms) (object ns') =
        (leb (size ms) (size ns') && leb (size ns') (size ms)) && same_members ms ns'
    same_json _ _ = false

    pub same_items : Items N → Items N → Bool
    same_items nil nil = true
    same_items (cons x xs) (cons y ys) = same_json x y && same_items xs ys
    same_items _ _ = false

    pub same_members : Members N → Members N → Bool
    same_members end ns' = true
    same_members (member k v ms) ns' =
        (has_key k ns' && same_json v (value_at k ns')) && same_members ms ns'
