-- ===== src/Validation/Tests.antt =====
-- The theorem on validation at requests that are accepted, but for the deletion of the namespace.
use eventter.Base.{◌≡◌, refl, true, false, [], ◌∷◌, String}
use eventter.Base.Int.{pos}
use eventter.Cluster.Data.{ClusterConsumerGroup, Binding, By, TopicCreate}
use eventter.Match.Messages.{codes}
use eventter.Validation.Rules.{
  validate_namespace_delete, validate_topic_create, validate_group_create, invalid_name, reserved,
  in_binding, blank, not_listed,
}
use eventter.Validation.Accepted.{is_accepted, validate-is_name}

abbrev binding : String → Binding
binding type = record { topic_name = "orders"; exchange_type = type; by = By.unset }

abbrev billing : ClusterConsumerGroup
billing = record {
  name = "billing-2";
  bindings = binding "fanout" ∷ [];
  size = 4;
  since = pos 0;
  offset_commits = [];
}

abbrev orders : TopicCreate
orders = record {
  namespace = "default";
  topic = record {
    name = "orders";
    shards = 2;
    replication_factor = 2;
    retention = pos 0;
    default_exchange_type = "topic";
  };
}

validate-is_name_example :
    (is_accepted (validate_group_create "default" billing) ≡ true)
    × (is_accepted (validate_topic_create orders) ≡ true)
    × (is_accepted (validate_namespace_delete "default") ≡ false)
unfolding codes
validate-is_name_example = validate-is_name "default" orders billing

-- Each problem is reported, under its field.
validate_group_create-problems :
    validate_group_create "4you"
      (record billing { name = "_queue"; bindings = binding "" ∷ binding "queue" ∷ [] })
    ≡ invalid_name "namespace"
      ∷ reserved "consumer group name"
      ∷ in_binding 0 (blank "exchange type")
      ∷ in_binding 1 (not_listed "exchange type")
      ∷ []
unfolding validate_group_create codes
validate_group_create-problems = refl
