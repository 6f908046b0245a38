-- ===== src/Validation/Rules.antt =====
-- The Validate methods, as the problems that they find, none of them for a nil error. The two regular
-- expressions are functions on the characters; a string that matches the first is in ASCII, so that
-- its bytes are its characters.
use eventter.Base.{
  ℕ, ◌+◌, Bool, true, false, ◌&&◌, ◌||◌, not, List, [], ◌∷◌, ◌++◌, String, str_eq, ◌==◌, ltb, leb,
  if◌then◌else◌, length,
}
use eventter.Base.Int.{pos, ltb_ℤ}
use eventter.Cluster.Data.{ClusterConsumerGroup, Binding, TopicCreate}
use eventter.Match.Messages.{codes}
use eventter.Reconcile.Members.{default_namespace}

-- An error of a field, by its format; `in_binding` is the wrapping of one.
pub data Problem : Type 0 where
  blank invalid_name reserved too_long not_listed negative : String → Problem
  undeletable : Problem
  in_binding : ℕ → Problem → Problem

abbrev pub name_max_length : ℕ
name_max_length = 64

abbrev pub is_letter : ℕ → Bool
is_letter c = leb 65 c && leb c 90 || leb 97 c && leb c 122

-- `[a-zA-Z_]` and `[0-9a-zA-Z-_]`
abbrev pub is_first : ℕ → Bool
is_first c = is_letter c || c == 95

abbrev pub is_other : ℕ → Bool
is_other c = leb 48 c && leb c 57 || (is_letter c || (c == 45 || c == 95))

abbrev pub all_others : List ℕ → Bool
all_others [] = true
all_others (c ∷ cs) = is_other c && all_others cs

-- `nameRegex.MatchString` and `reservedNameRegex.MatchString`
abbrev pub matches_name : List ℕ → Bool
matches_name [] = false
matches_name (c ∷ cs) = is_first c && all_others cs

abbrev pub matches_reserved : List ℕ → Bool
matches_reserved [] = false
matches_reserved (c ∷ cs) = c == 95

-- The tests behind the one for a blank name.
abbrev pub filled_name : String → List ℕ → List Problem
filled_name field cs =
    if not (matches_name cs)
    then invalid_name field ∷ []
    else (if matches_reserved cs
        then reserved field ∷ []
        else (if ltb name_max_length (length cs) then too_long field ∷ [] else []))

abbrev pub check_name : String → String → List Problem
check_name field name = if str_eq name "" then blank field ∷ [] else filled_name field (codes name)

-- A name that a list may leave out.
abbrev pub check_filter : String → String → List Problem
check_filter field name = if str_eq name "" then [] else filled_name field (codes name)

abbrev pub is_exchange_type : String → Bool
is_exchange_type type =
    str_eq type "direct" || (str_eq type "fanout" || (str_eq type "topic" || str_eq type "headers"))

abbrev pub check_exchange_type : String → List Problem
check_exchange_type type =
    if str_eq type ""
    then blank "exchange type" ∷ []
    else (if is_exchange_type type then [] else not_listed "exchange type" ∷ [])

abbrev pub wrap : ℕ → List Problem → List Problem
wrap i [] = []
wrap i (p ∷ ps) = in_binding i p ∷ wrap i ps

abbrev pub check_bindings : ℕ → List Binding → List Problem
check_bindings i [] = []
check_bindings i (b ∷ bs) =
    wrap i (check_exchange_type b.exchange_type) ++ check_bindings (i + 1) bs

abbrev pub validate_namespace_create : String → List Problem
validate_namespace_create namespace = check_name "namespace" namespace

unfoldable pub validate_namespace_delete : String → List Problem
validate_namespace_delete namespace = elim (check_name "namespace" namespace) [
  | [] ↦ if str_eq namespace default_namespace then undeletable ∷ [] else []
  | p ∷ ps ↦ p ∷ ps
]

unfoldable pub validate_topic_create : TopicCreate → List Problem
validate_topic_create r =
    check_name "namespace" r.namespace
    ++ (check_name "topic name" r.topic.name
        ++ (check_exchange_type r.topic.default_exchange_type
            ++ (if ltb_ℤ r.topic.retention (pos 0) then negative "retention" ∷ [] else [])))

-- `TopicDeleteRequest` and `TopicPublishRequest`
abbrev pub validate_topic : String → String → List Problem
validate_topic namespace name = check_name "namespace" namespace ++ check_name "topic name" name

abbrev pub validate_topic_list : String → String → List Problem
validate_topic_list namespace name =
    check_name "namespace" namespace ++ check_filter "topic name" name

unfoldable pub validate_group_create : String → ClusterConsumerGroup → List Problem
validate_group_create namespace c =
    check_name "namespace" namespace
    ++ (check_name "consumer group name" c.name ++ check_bindings 0 c.bindings)

-- `ConsumerGroupDeleteRequest` and `ConsumerGroupSubscribeRequest`
abbrev pub validate_group : String → String → List Problem
validate_group namespace name =
    check_name "namespace" namespace ++ check_name "consumer group name" name

abbrev pub validate_group_list : String → String → List Problem
validate_group_list namespace name =
    check_name "namespace" namespace ++ check_filter "consumer group name" name
