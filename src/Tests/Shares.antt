-- ===== src/Tests/Shares.antt =====
-- The history thread with its connections, and documents, at concrete inputs.
use linkedon_push.Common.{
  ◌≡◌, ◌≢◌, refl, [], ◌∷◌, some, codes, find, nat_key, bytes_key, StringMap, arith,
}
use linkedon_push.Conn.{Entity}
use linkedon_push.History.{cycle_round, stops}
use linkedon_push.Tests.Histories.{database, stoll, for_alice, stored}
use linkedon_push.Tests.Sources.{with_alice}
use linkedon_push.History.Queue.{occurs}
use linkedon_push.History.Sharing.{
  Sharing, none_shared, open_conn, close_conn, Reach, here, next, opens,
}
use linkedon_push.History.Sharing.Closing.{close_keeps_others, close_takes_other, reused}
use linkedon_push.History.Success.{cycle_round_never_stops}
use linkedon_push.Mongo.{Driver, oid, oid_text, json_to_map}
use linkedon_push.Mongo.Client.{excute}
use linkedon_push.Mongo.Maps.{json_to_map-excute}

abbrev wish : Entity
wish = record {
  db = codes "d";
  collection_name = codes "c";
  app_key = codes "a";
  user_id = codes "u";
  secrete_key = codes "s";
}

abbrev two_open : Sharing
two_open = open_conn 2 8 wish (open_conn 1 7 wish none_shared)

two_open-Reach : Reach none_shared two_open
unfolding open_conn occurs linkedon_push.History.push_entity
two_open-Reach = next (next here (opens 1 7 wish refl refl)) (opens 2 8 wish refl refl)

close_keeps_others_example :
    (occurs 7 (close_conn 1 two_open).queue ≡ 0)
    × (occurs 8 (close_conn 1 two_open).queue ≡ occurs 8 two_open.queue)
    × (find 2 (close_conn 1 two_open).held ≡ find 2 two_open.held)
unfolding open_conn
close_keeps_others_example =
    close_keeps_others two_open 1 2 7 8 two_open-Reach refl (omega arith) (omega arith)

close_takes_other_example :
    Reach none_shared (reused 1 2 7 wish wish)
    × (find 1 (reused 1 2 7 wish wish).held ≡ some 7)
    × (find 2 (reused 1 2 7 wish wish).held ≡ some 7)
    × (occurs 7 (reused 1 2 7 wish wish).queue ≡ 1)
    × (occurs 7 (close_conn 1 (reused 1 2 7 wish wish)).queue ≡ 0)
close_takes_other_example = close_takes_other 1 2 7 wish wish (omega arith)

cycle_round_never_stops_example :
    cycle_round stoll (database (stored ∷ [])) 3 ((7, for_alice) ∷ []) with_alice ≢ some (stops 211)
cycle_round_never_stops_example =
    cycle_round_never_stops stoll (database (stored ∷ [])) 3 211 ((7, for_alice) ∷ []) with_alice

abbrev two_texts : StringMap
two_texts = (codes "MsgId", codes "7") ∷ (codes "Title", codes "hi") ∷ []

-- A driver that prints and reads the document with this id.
abbrev with_id : Driver
with_id = record (database []) {
  from_json = λ t. (codes "_id", oid (1 ∷ 2 ∷ [])) ∷ excute two_texts;
}

json_to_map-excute_example :
    json_to_map with_id (codes "j") ≡ (codes "_id", oid_text (1 ∷ 2 ∷ [])) ∷ two_texts
json_to_map-excute_example =
    json_to_map-excute with_id two_texts (1 ∷ 2 ∷ []) refl (refl, (refl, tt))
      (refl, refl, (refl, refl, tt)) refl
