-- ===== src/Cache/Tests.antt =====
-- Runs of api/services/cache_service.py, over a Redis that is a list of texts.
use ml_engineer_challenge_so.Prelude.{String, true, ◌≡◌, refl, ap, sym, [], Option, none, some, ok}
use ml_engineer_challenge_so.Prelude.Dict.{Dict, lookup, insert, lookup-insert_self}
use ml_engineer_challenge_so.Cache.{RedisServer, Codec, CacheService, get, set}
use ml_engineer_challenge_so.Cache.Stored.{Keeps, RoundTrips, get-set}

abbrev pub table : RedisServer
table = record {
  State = Dict String;
  get_text = λ key s. (ok (lookup key s), s);
  set_text = λ key raw ttl s. (true, insert key raw s);
  delete_key = λ key s. (true, s);
  ping_server = λ s. none;
}

abbrev plain : Codec String
plain = record { dumps = λ v. some v; loads = λ raw. some raw }

abbrev pub fresh : CacheService table
fresh = record {
  configured = true;
  ttl_seconds = 3600;
  hits = 0;
  misses = 0;
  errors = 0;
  server = [];
}

table-Keeps : Keeps table
table-Keeps key raw ttl s h = ap (λ (o : Option String). ok o) (lookup-insert_self key raw s)

plain-RoundTrips : RoundTrips plain
plain-RoundTrips value raw h = sym h

get-set_example : (get plain "k" (set plain "k" "v" none fresh).1).0 ≡ some "v"
unfolding set
get-set_example = get-set plain table-Keeps plain-RoundTrips "k" "v" none fresh refl
