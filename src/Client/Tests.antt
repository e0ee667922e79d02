-- ===== src/Client/Tests.antt =====
-- The arguments of a concrete client.
use snmpclient.Prelude.{◌≡◌, refl, [], codes, ok, err, argument, one_of}
use snmpclient.Prelude.Int.{pos, negsuc, ◌≤ℤ◌}
use snmpclient.Pdu.{Pdu, v1, base, empty_pdu, get_bulk_request}
use snmpclient.Client.{
  ClientArguments, new_snmp, validate, bulk_pdu, timeout_default, msg_size_default,
}
use snmpclient.Client.Accepted.{IsReady, new_snmp-IsReady}
use snmpclient.Client.Bulk.{IsCount, bulk_pdu_lem}

abbrev given : ClientArguments
given = record {
  version = pos 3;
  timeout = pos 0;
  retries = 2;
  message_max_size = pos 0;
  community = [];
  user_name = codes "user";
  security_level = pos 1;
  auth_password = codes "password";
  auth_protocol = codes "MD5";
  auth_key = [];
  priv_password = [];
  priv_protocol = [];
  priv_key = [];
  security_engine_id = [];
  context_engine_id = [];
  context_name = [];
}

abbrev kept : ClientArguments
kept = record given { timeout = pos timeout_default; message_max_size = pos msg_size_default }

made : new_snmp given ≡ ok kept
unfolding new_snmp one_of
made = refl

new_snmp-IsReady_example : IsReady kept
new_snmp-IsReady_example = new_snmp-IsReady given kept made

short_password : validate (record given { auth_password = codes "secret" }) ≡ err argument
unfolding validate one_of
short_password = refl

abbrev community_client : ClientArguments
community_client = record given { version = pos 1 }

abbrev bulk : Pdu
unfolding empty_pdu
bulk = v1 (record (empty_pdu get_bulk_request) { error_index = pos 10 })

bulk_sent : bulk_pdu community_client [] (pos 0) (pos 10) ≡ ok bulk
unfolding bulk_pdu empty_pdu
bulk_sent = refl

bulk_pdu_lem_example :
    (pos 1 ≤ℤ pos 1)
    × IsCount (pos 0)
    × IsCount (pos 10)
    × ((base bulk).error_status ≡ pos 0)
    × ((base bulk).error_index ≡ pos 10)
bulk_pdu_lem_example = bulk_pdu_lem community_client [] (pos 0) (pos 10) bulk bulk_sent

bulk_refused : bulk_pdu community_client [] (negsuc 0) (pos 10) ≡ err argument
unfolding bulk_pdu
bulk_refused = refl
