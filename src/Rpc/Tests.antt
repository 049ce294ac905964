-- ===== src/Rpc/Tests.antt =====
-- A call of a relay that cannot be reached.
use mev_boost.Common.{◌≡◌, refl, String, none, some, []}
use mev_boost.Rpc.{Http, Reply, done, failed, make_request}

abbrev offline : Http String String String
offline = record {
  nil_text = "";
  marshal = λ req. done req.method;
  new_request = λ verb url body. done url;
  add_header = λ key value req. req;
  send = λ req. failed "connection refused";
  read_all = λ resp. done resp;
  unmarshal_response = λ body resp. record { res = some resp; err = none };
}

abbrev refused : Reply String
refused = record { res = none; err = some "connection refused" }

unreachable : make_request offline "http://relay" "relay_getPayloadHeaderV1" [] ≡ refused
unfolding make_request
unreachable = refl
