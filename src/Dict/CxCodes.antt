-- ===== src/Dict/CxCodes.antt =====
-- The AVP codes of diaCx/include/diaCxAvp.h, and in the order of the switches of diaCx/src/diaCx.c.
use diameter.Common.{ℕ, List, [], ◌∷◌}

-- `diaAvpCxCode_e`.
pub data AvpCxCode : Type 0 where
  allowed_waf_wwsf_id associated_id associated_registration_id call_ref_info : AvpCxCode
  callid_sip_header charging_info confidentiality_key contact dereg_reason : AvpCxCode
  feature_list feature_list_id from_sip_header identity_with_emergency_reg : AvpCxCode
  initial_cseq_seq_number integrity_key lia_flags loose_route_ind : AvpCxCode
  mandatory_capability multi_reg_indication optional_capability orig_request path : AvpCxCode
  pcscf_subscription_info pri_chg_collection_func_name pri_event_chg_func_name : AvpCxCode
  priviledged_sender_id public_id reason_code reason_info record_route : AvpCxCode
  registration_timeout requested_domain restoration_info rtr_flags sar_flags : AvpCxCode
  scscf_restoration_info sec_chg_collection_func_name sec_event_chg_func_name : AvpCxCode
  session_priority server_assignment_type server_capability serving_node_ind : AvpCxCode
  server_name sip_authenticate sip_authorization sip_auth_context sip_auth_data_item : AvpCxCode
  sip_auth_scheme sip_digest_authenticate sip_item_num sip_num_auth_items : AvpCxCode
  subscription_info supported_applications supported_feature to_sip_header uar_flags : AvpCxCode
  user_auth_type user_data_cx user_data_already_available visited_nw_id : AvpCxCode
  webrtc_auth_func_name webrtc_web_server_func_name wildcarded_pub_id : AvpCxCode

unfoldable pub cx_code : AvpCxCode → ℕ
cx_code allowed_waf_wwsf_id = 656
cx_code associated_id = 632
cx_code associated_registration_id = 647
cx_code call_ref_info = 720
cx_code callid_sip_header = 643
cx_code charging_info = 618
cx_code confidentiality_key = 625
cx_code contact = 641
cx_code dereg_reason = 615
cx_code feature_list = 630
cx_code feature_list_id = 629
cx_code from_sip_header = 644
cx_code identity_with_emergency_reg = 651
cx_code initial_cseq_seq_number = 654
cx_code integrity_key = 626
cx_code lia_flags = 653
cx_code loose_route_ind = 638
cx_code mandatory_capability = 604
cx_code multi_reg_indication = 648
cx_code optional_capability = 605
cx_code orig_request = 633
cx_code path = 640
cx_code pcscf_subscription_info = 660
cx_code pri_chg_collection_func_name = 621
cx_code pri_event_chg_func_name = 619
cx_code priviledged_sender_id = 652
cx_code public_id = 601
cx_code reason_code = 616
cx_code reason_info = 617
cx_code record_route = 646
cx_code registration_timeout = 661
cx_code requested_domain = 706
cx_code restoration_info = 649
cx_code rtr_flags = 659
cx_code sar_flags = 655
cx_code scscf_restoration_info = 639
cx_code sec_chg_collection_func_name = 622
cx_code sec_event_chg_func_name = 620
cx_code session_priority = 650
cx_code server_assignment_type = 614
cx_code server_capability = 603
cx_code serving_node_ind = 714
cx_code server_name = 602
cx_code sip_authenticate = 609
cx_code sip_authorization = 610
cx_code sip_auth_context = 611
cx_code sip_auth_data_item = 612
cx_code sip_auth_scheme = 608
cx_code sip_digest_authenticate = 635
cx_code sip_item_num = 613
cx_code sip_num_auth_items = 607
cx_code subscription_info = 642
cx_code supported_applications = 631
cx_code supported_feature = 628
cx_code to_sip_header = 645
cx_code uar_flags = 637
cx_code user_auth_type = 623
cx_code user_data_cx = 606
cx_code user_data_already_available = 624
cx_code visited_nw_id = 600
cx_code webrtc_auth_func_name = 657
cx_code webrtc_web_server_func_name = 658
cx_code wildcarded_pub_id = 634

-- `diaAvpCxReusedCode_e`.
pub data AvpCxReusedCode : Type 0 where
  digest_algorithm digest_ha1 digest_qop digest_realm drmp : AvpCxReusedCode
  reuse_framed_ip_address reuse_framed_ipv6_prefix load oc_olr : AvpCxReusedCode
  oc_supported_features : AvpCxReusedCode

unfoldable pub reused_code : AvpCxReusedCode → ℕ
reused_code digest_algorithm = 111
reused_code digest_ha1 = 121
reused_code digest_qop = 110
reused_code digest_realm = 104
reused_code drmp = 301
reused_code reuse_framed_ip_address = 8
reused_code reuse_framed_ipv6_prefix = 97
reused_code load = 650
reused_code oc_olr = 623
reused_code oc_supported_features = 621

abbrev pub cx_listed : List AvpCxCode
cx_listed =
    allowed_waf_wwsf_id ∷ associated_id ∷ associated_registration_id ∷ call_ref_info
    ∷ callid_sip_header ∷ charging_info ∷ confidentiality_key ∷ contact ∷ dereg_reason
    ∷ feature_list ∷ feature_list_id ∷ from_sip_header ∷ identity_with_emergency_reg
    ∷ initial_cseq_seq_number ∷ integrity_key ∷ lia_flags ∷ loose_route_ind ∷ mandatory_capability
    ∷ multi_reg_indication ∷ optional_capability ∷ orig_request ∷ path ∷ pcscf_subscription_info
    ∷ pri_chg_collection_func_name ∷ pri_event_chg_func_name ∷ priviledged_sender_id ∷ public_id
    ∷ reason_code ∷ reason_info ∷ record_route ∷ registration_timeout ∷ requested_domain
    ∷ restoration_info ∷ rtr_flags ∷ sar_flags ∷ scscf_restoration_info
    ∷ sec_chg_collection_func_name ∷ sec_event_chg_func_name ∷ session_priority
    ∷ server_assignment_type ∷ server_capability ∷ serving_node_ind ∷ server_name ∷ sip_authenticate
    ∷ sip_authorization ∷ sip_auth_context ∷ sip_auth_data_item ∷ sip_auth_scheme
    ∷ sip_digest_authenticate ∷ sip_item_num ∷ sip_num_auth_items ∷ subscription_info
    ∷ supported_applications ∷ supported_feature ∷ to_sip_header ∷ uar_flags ∷ user_auth_type
    ∷ user_data_cx ∷ user_data_already_available ∷ visited_nw_id ∷ webrtc_auth_func_name
    ∷ webrtc_web_server_func_name ∷ wildcarded_pub_id ∷ []

abbrev pub reused_listed : List AvpCxReusedCode
reused_listed =
    digest_algorithm ∷ digest_ha1 ∷ digest_qop ∷ digest_realm ∷ drmp ∷ reuse_framed_ip_address
    ∷ reuse_framed_ipv6_prefix ∷ load ∷ oc_olr ∷ oc_supported_features ∷ []
