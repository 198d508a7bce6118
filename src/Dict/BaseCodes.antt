-- ===== src/Dict/BaseCodes.antt =====
-- The AVP codes of common/include/diaBaseAvp.h, and in the order of the switch of common/src/diaAvpHelper.c.
use diameter.Common.{ℕ, List, [], ◌∷◌}

-- `diaAvpBaseCode_e`.
pub data AvpBaseCode : Type 0 where
  access_nw_info acct_app_id acct_interim_interval acct_multi_session_id : AvpBaseCode
  acct_rec_type acct_realtime_required acct_rec_number acct_session_id : AvpBaseCode
  acct_sub_session_id auth_app_id auth_grace_period auth_lifetime auth_req_type : AvpBaseCode
  auth_session_state class dest_host dest_realm disconnect_cause error_message : AvpBaseCode
  error_reporting_host event_timestamp experimental_result experimental_result_code : AvpBaseCode
  failed_avp firmware_rev host_ip_address inband_security_id multi_round_timeout : AvpBaseCode
  orig_host orig_realm orig_state_id product_name proxy_host proxy_info proxy_state : AvpBaseCode
  redirect_host route_record reauth_request_type redirect_host_usage : AvpBaseCode
  redirect_max_cache_time result_code session_binding session_id : AvpBaseCode
  session_server_failover session_timeout supported_vendor_id termination_cause : AvpBaseCode
  vendor_id user_name vendor_specific_app_id : AvpBaseCode

unfoldable pub base_code : AvpBaseCode → ℕ
base_code access_nw_info = 1263
base_code acct_app_id = 259
base_code acct_interim_interval = 85
base_code acct_multi_session_id = 50
base_code acct_rec_type = 480
base_code acct_realtime_required = 483
base_code acct_rec_number = 485
base_code acct_session_id = 44
base_code acct_sub_session_id = 287
base_code auth_app_id = 258
base_code auth_grace_period = 276
base_code auth_lifetime = 291
base_code auth_req_type = 274
base_code auth_session_state = 277
base_code class = 25
base_code dest_host = 293
base_code dest_realm = 283
base_code disconnect_cause = 273
base_code error_message = 281
base_code error_reporting_host = 294
base_code event_timestamp = 55
base_code experimental_result = 297
base_code experimental_result_code = 298
base_code failed_avp = 279
base_code firmware_rev = 267
base_code host_ip_address = 257
base_code inband_security_id = 299
base_code multi_round_timeout = 272
base_code orig_host = 264
base_code orig_realm = 296
base_code orig_state_id = 278
base_code product_name = 269
base_code proxy_host = 280
base_code proxy_info = 284
base_code proxy_state = 33
base_code redirect_host = 292
base_code route_record = 282
base_code reauth_request_type = 285
base_code redirect_host_usage = 261
base_code redirect_max_cache_time = 262
base_code result_code = 268
base_code session_binding = 270
base_code session_id = 263
base_code session_server_failover = 271
base_code session_timeout = 27
base_code supported_vendor_id = 265
base_code termination_cause = 295
base_code vendor_id = 266
base_code user_name = 1
base_code vendor_specific_app_id = 260

abbrev pub base_listed : List AvpBaseCode
base_listed =
    access_nw_info ∷ acct_app_id ∷ acct_interim_interval ∷ acct_multi_session_id ∷ acct_rec_type
    ∷ acct_realtime_required ∷ acct_rec_number ∷ acct_session_id ∷ acct_sub_session_id ∷ auth_app_id
    ∷ auth_grace_period ∷ auth_lifetime ∷ auth_req_type ∷ auth_session_state ∷ class ∷ dest_host
    ∷ dest_realm ∷ disconnect_cause ∷ error_message ∷ error_reporting_host ∷ event_timestamp
    ∷ experimental_result ∷ experimental_result_code ∷ failed_avp ∷ firmware_rev ∷ host_ip_address
    ∷ inband_security_id ∷ multi_round_timeout ∷ orig_host ∷ orig_realm ∷ orig_state_id
    ∷ product_name ∷ proxy_host ∷ proxy_info ∷ proxy_state ∷ redirect_host ∷ route_record
    ∷ reauth_request_type ∷ redirect_host_usage ∷ redirect_max_cache_time ∷ result_code
    ∷ session_binding ∷ session_id ∷ session_server_failover ∷ session_timeout ∷ supported_vendor_id
    ∷ termination_cause ∷ vendor_id ∷ user_name ∷ vendor_specific_app_id ∷ []
