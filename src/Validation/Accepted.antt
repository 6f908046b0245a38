-- ===== src/Validation/Accepted.antt =====
-- Which requests are accepted.
use eventter.Base.{
  ℕ, zero, suc, ◌+◌, ◌≡◌, ◌||◌, any, ◌==◌, leb, refl, sym, subst, ◌∙◌, inl, inr, arith, Bool, true,
  false, ◌&&◌, not, List, [], ◌∷◌, ◌++◌, String, str_eq, eq_iff, ltb, if◌then◌else◌, length,
  Bool-cases,
}
use eventter.Base.Int.{pos, ltb_ℤ}
use eventter.Cluster.Data.{ClusterConsumerGroup, Binding, TopicCreate}
use eventter.Match.Messages.{codes}
use eventter.Reconcile.Members.{default_namespace}
use eventter.Validation.Rules.{
  Problem, is_letter, is_other, all_others, filled_name, check_name, check_exchange_type, wrap,
  check_bindings, validate_topic_create, validate_group_create, validate_namespace_delete, negative,
}

abbrev pub is_accepted : List Problem → Bool
is_accepted [] = true
is_accepted (p ∷ ps) = false

-- Whether a character, or a type, is one of those listed.
abbrev pub listed : List ℕ → ℕ → Bool
listed cs c = any (λ x. x == c) cs

abbrev pub letters : String
letters = "abcdefghijklmnopqrstuvwxyzABCDEFGHIJKLMNOPQRSTUVWXYZ"

abbrev pub name_characters : String
name_characters = "abcdefghijklmnopqrstuvwxyzABCDEFGHIJKLMNOPQRSTUVWXYZ0123456789-_"

abbrev pub all_listed : List ℕ → List ℕ → Bool
all_listed known [] = true
all_listed known (c ∷ cs) = listed known c && all_listed known cs

-- A letter, and up to 63 letters, digits, hyphens and underscores.
abbrev pub is_name : List ℕ → Bool
is_name [] = false
is_name (c ∷ cs) =
    listed (codes letters) c && (all_listed (codes name_characters) cs && ltb (length cs) 64)

abbrev pub exchange_types : List String
exchange_types = "direct" ∷ "fanout" ∷ "topic" ∷ "headers" ∷ []

abbrev pub is_named : String → Bool
is_named type = any (λ t. str_eq type t) exchange_types

abbrev pub all_known : List Binding → Bool
all_known [] = true
all_known (b ∷ bs) = is_named b.exchange_type && all_known bs

-- The characters from one on.
upto : ℕ → ℕ → List ℕ
upto from zero = []
upto from (suc n) = from ∷ upto (from + 1) n

listed-upto : (from n c : ℕ) → listed (upto from n) c ≡ (leb from c && ltb c (from + n))
unfolding upto
listed-upto from zero c = ground arith
listed-upto from (suc n) c = ground (arith, listed-upto (from + 1) n c)

listed-append : (xs ys : List ℕ) (c : ℕ) → listed (xs ++ ys) c ≡ (listed xs c || listed ys c)
listed-append [] ys c = refl
listed-append (x ∷ xs) ys c = ground (arith, listed-append xs ys c)

codes-letters : codes letters ≡ upto 97 26 ++ upto 65 26
unfolding codes upto
codes-letters = refl

codes-name_characters :
    codes name_characters ≡ upto 97 26 ++ (upto 65 26 ++ (upto 48 10 ++ (45 ∷ 95 ∷ [])))
unfolding codes upto
codes-name_characters = refl

is_letter-listed : (c : ℕ) → is_letter c ≡ listed (codes letters) c
is_letter-listed c = rw codes-letters (
    ground
      (arith, listed-append (upto 97 26) (upto 65 26) c, listed-upto 97 26 c, listed-upto 65 26 c))

is_other-listed : (c : ℕ) → is_other c ≡ listed (codes name_characters) c
is_other-listed c = rw codes-name_characters (
    ground (
      arith,
      listed-append (upto 97 26) (upto 65 26 ++ (upto 48 10 ++ (45 ∷ 95 ∷ []))) c,
      listed-append (upto 65 26) (upto 48 10 ++ (45 ∷ 95 ∷ [])) c,
      listed-append (upto 48 10) (45 ∷ 95 ∷ []) c,
      listed-upto 97 26 c,
      listed-upto 65 26 c,
      listed-upto 48 10 c,
    ))

all_others-all_listed : (cs : List ℕ) → all_others cs ≡ all_listed (codes name_characters) cs
all_others-all_listed [] = refl
all_others-all_listed (c ∷ cs) = ground (arith, is_other-listed c, all_others-all_listed cs)

append-accepted :
    (ps qs : List Problem) → is_accepted (ps ++ qs) ≡ (is_accepted ps && is_accepted qs)
append-accepted [] qs = refl
append-accepted (p ∷ ps) qs = refl

filled_name-is_name :
    (field : String) (cs : List ℕ) → is_accepted (filled_name field cs) ≡ is_name cs
filled_name-is_name field [] = refl
filled_name-is_name field (c ∷ cs) = ground (arith, is_letter-listed c, all_others-all_listed cs)

check_name-is_name :
    (field name : String) → is_accepted (check_name field name) ≡ is_name (codes name)
unfolding codes
check_name-is_name field name = elim (Bool-cases (str_eq name "")) [
  | inl e ↦
      let same : name ≡ "" = (eq_iff name "").0 e in
      subst (λ n. is_accepted (check_name field n) ≡ is_name (codes n)) (sym same) refl
  | inr e ↦ rw e (filled_name-is_name field (codes name))
]

check_exchange_type-is_named :
    (type : String) → is_accepted (check_exchange_type type) ≡ is_named type
check_exchange_type-is_named type = elim (Bool-cases (str_eq type "")) [
  | inl e ↦
      let same : type ≡ "" = (eq_iff type "").0 e in
      subst (λ t. is_accepted (check_exchange_type t) ≡ is_named t) (sym same) refl
  | inr e ↦ ground (arith, e)
]

wrap-accepted : (i : ℕ) (ps : List Problem) → is_accepted (wrap i ps) ≡ is_accepted ps
wrap-accepted i [] = refl
wrap-accepted i (p ∷ ps) = refl

check_bindings-all_known :
    (i : ℕ) (bs : List Binding) → is_accepted (check_bindings i bs) ≡ all_known bs
check_bindings-all_known i [] = refl
check_bindings-all_known i (b ∷ bs) =
    let type = check_exchange_type b.exchange_type in
    append-accepted (wrap i type) (check_bindings (i + 1) bs)
    ∙ both (wrap-accepted i type ∙ check_exchange_type-is_named b.exchange_type)
        (check_bindings-all_known (i + 1) bs)
  where
    both : {a c d e : Bool} → a ≡ c → d ≡ e → (a && d) ≡ (c && e)
    both h k = rw h (rw k refl)

validate_group_create-is_name :
    (namespace : String) (c : ClusterConsumerGroup)
    → is_accepted (validate_group_create namespace c)
      ≡ (is_name (codes namespace) && (is_name (codes c.name) && all_known c.bindings))
unfolding validate_group_create
validate_group_create-is_name namespace c =
    let first = check_name "namespace" namespace in
    let second = check_name "consumer group name" c.name in
    let third = check_bindings 0 c.bindings in
    append-accepted first (second ++ third)
    ∙ rw (check_name-is_name "namespace" namespace) (
        rw (append-accepted second third) (
          rw (check_name-is_name "consumer group name" c.name)
            (rw (check_bindings-all_known 0 c.bindings) refl)))

validate_topic_create-is_name :
    (r : TopicCreate)
    → is_accepted (validate_topic_create r) ≡ (
        is_name (codes r.namespace)
        && (is_name (codes r.topic.name)
            && (is_named r.topic.default_exchange_type && not (ltb_ℤ r.topic.retention (pos 0)))))
unfolding validate_topic_create
validate_topic_create-is_name r =
    let first = check_name "namespace" r.namespace in
    let second = check_name "topic name" r.topic.name in
    let third = check_exchange_type r.topic.default_exchange_type in
    let last : List Problem =
      if ltb_ℤ r.topic.retention (pos 0) then negative "retention" ∷ [] else [] in
    let end : is_accepted last ≡ not (ltb_ℤ r.topic.retention (pos 0)) = ground arith in
    append-accepted first (second ++ (third ++ last))
    ∙ rw (check_name-is_name "namespace" r.namespace) (
        rw (append-accepted second (third ++ last)) (
          rw (check_name-is_name "topic name" r.topic.name) (
            rw (append-accepted third last)
              (rw (check_exchange_type-is_named r.topic.default_exchange_type) (rw end refl)))))

validate_namespace_delete-is_name :
    (namespace : String)
    → is_accepted (validate_namespace_delete namespace)
      ≡ (is_name (codes namespace) && not (str_eq namespace default_namespace))
unfolding validate_namespace_delete
validate_namespace_delete-is_name namespace =
    go (check_name "namespace" namespace) refl ∙ rw (check_name-is_name "namespace" namespace) refl
  where
    go :
        (ps : List Problem)
        → check_name "namespace" namespace ≡ ps
        → is_accepted (validate_namespace_delete namespace) ≡ (
            is_accepted (check_name "namespace" namespace)
            && not (str_eq namespace default_namespace))
    go [] e = rw (validate_namespace_delete, e) (ground arith)
    go (p ∷ ps) e = rw (validate_namespace_delete, e) refl

-- `Validate` accepts the creation of a consumer group just where the namespace and the group have
-- names and every binding has one of the exchange types direct, fanout, topic and headers; that of
-- a topic just where the namespace and the topic have names, the exchange type is one of the four
-- and the retention is not negative; and the deletion of a namespace just where it has a name that
-- is not "default"; a name is a letter and up to 63 letters, digits, hyphens and underscores.
pub validate-is_name :
    (namespace : String) (r : TopicCreate) (c : ClusterConsumerGroup)
    → (is_accepted (validate_group_create namespace c)
        ≡ (is_name (codes namespace) && (is_name (codes c.name) && all_known c.bindings)))
      × (is_accepted (validate_topic_create r) ≡ (
          is_name (codes r.namespace)
          && (is_name (codes r.topic.name)
              && (is_named r.topic.default_exchange_type
                  && not (ltb_ℤ r.topic.retention (pos 0))))))
      × (is_accepted (validate_namespace_delete namespace)
          ≡ (is_name (codes namespace) && not (str_eq namespace default_namespace)))
validate-is_name namespace r c = (
  validate_group_create-is_name namespace c,
  validate_topic_create-is_name r,
  validate_namespace_delete-is_name namespace,
)
