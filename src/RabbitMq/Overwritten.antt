-- ===== src/RabbitMq/Overwritten.antt =====
-- What of a RabbitMQ role reaches Vault.
use mathlib.Core.List.{◌++◌}
use vault_config_operator.Common.{String, ◌≡◌, refl, ap, List, [], ◌∷◌}
use vault_config_operator.Payload.{end, field, str}
use vault_config_operator.RabbitMq.Role.{
  Vhost, Topic, VhostTopic, Json, Permissions, TopicPermissions, collect_vhosts, collect_topics,
  collect_vhost_topics, convert_vhosts_to_json, convert_topics_to_json, role_to_map,
}

collect_vhosts-last :
    (d e : Permissions) (vs : List Vhost) (v : Vhost)
    → collect_vhosts d (vs ++ v ∷ []) ≡ collect_vhosts e (v ∷ [])
unfolding collect_vhosts
collect_vhosts-last d e [] v = refl
collect_vhosts-last d e (u ∷ vs) v = collect_vhosts-last _ e vs v

collect_topics-last :
    (d e : Permissions) (ts : List Topic) (t : Topic)
    → collect_topics d (ts ++ t ∷ []) ≡ collect_topics e (t ∷ [])
unfolding collect_topics
collect_topics-last d e [] t = refl
collect_topics-last d e (u ∷ ts) t = collect_topics-last _ e ts t

collect_vhost_topics-last :
    (vs : List VhostTopic) (td : Permissions) (vd : TopicPermissions) (name : String)
    (ts : List Topic) (t : Topic)
    → collect_vhost_topics td vd (vs ++ record { vhost_name = name; topics = ts ++ t ∷ [] } ∷ [])
      ≡ collect_vhost_topics [] [] (record { vhost_name = name; topics = t ∷ [] } ∷ [])
unfolding collect_vhost_topics
collect_vhost_topics-last [] td vd name ts t =
    ap (λ d. (name, d) ∷ []) (collect_topics-last td [] ts t)
collect_vhost_topics-last (v ∷ vs) td vd name ts t = collect_vhost_topics-last vs _ _ name ts t

-- Of the vhosts of a role only the last reaches Vault, and of the topics only the last of the last
-- vhost, which has one: the payload is that of the role with these two alone.
pub role_to_map-last :
    (j : Json) (tags : String) (vhosts : List Vhost) (vhost : Vhost) (others : List VhostTopic)
    (name : String) (topics : List Topic) (topic : Topic)
    → role_to_map j (record {
      tags = tags;
      vhosts = vhosts ++ vhost ∷ [];
      vhost_topics = others ++ record { vhost_name = name; topics = topics ++ topic ∷ [] } ∷ [];
    })
      ≡ role_to_map j (record {
        tags = tags;
        vhosts = vhost ∷ [];
        vhost_topics = record { vhost_name = name; topics = topic ∷ [] } ∷ [];
      })
unfolding role_to_map convert_vhosts_to_json convert_topics_to_json
role_to_map-last j tags vhosts vhost others name topics topic = λ i. field "tags" (str tags) (
    field "vhosts" (str (j.marshal_vhosts (collect_vhosts-last [] [] vhosts vhost i))) (
      field "vhost_topics"
        (str (j.marshal_topics (collect_vhost_topics-last others [] [] name topics topic i))) end))
