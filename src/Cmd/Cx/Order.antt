-- ===== src/Cmd/Cx/Order.antt =====
-- The order of the AVPs in the requests of diaCx/src, as their builders give the optional ones.
use diameter.Common.{
  ℕ, ◌≡◌, refl, sym, ap, append-nil, ◌&&◌, Option, none, some, ◌==◌, if◌then◌else◌, List, [], ◌∷◌,
  ◌++◌,
}
use diameter.Wire.Encode.{enc_avp, num, pl}
use diameter.Wire.Message.{MsgAvp, plain}
use diameter.Cmd.Lists.{ListLaws}
use diameter.Cmd.Parts.{AvpLists}
use diameter.Cmd.Moved.{extra_last}
use diameter.Cmd.Param.{lists_from}
use diameter.Cmd.Encoders.{Feature}
use diameter.Cmd.Cx.{CxEnv, cx_head, opt_text, opt_features, request_opts}
use diameter.Cmd.Rules.{found, without, ready, step_laws, found_laws}
use diameter.Cmd.Cx.Layout.{head_of, request_opts-found}
use diameter.Cmd.Cx.Lir.{LirParam, lir_avps, reg_and_cap}
use diameter.Cmd.Cx.Sar.{SarParam, sar_avps, append_user_name, exists, ind_value}
use diameter.Cmd.Cx.Mar.{MarParam, mar_avps, auth_data_avp}

append_user_name-some :
    (name : Option (List ℕ)) (l : AvpLists)
    → append_user_name name l
      ≡ some (record { out = l.out ++ opt_text 1 name; opt = l.opt; extra = l.extra })
unfolding append_user_name
append_user_name-some none l =
    ap (λ k. some (record { out = k; opt = l.opt; extra = l.extra })) (sym (append-nil l.out))
append_user_name-some (some name) l = refl

module _ (cx : CxEnv) (laws : ListLaws cx.lists) where
  -- In a Location-Info-Request the AVPs stand in this order: the session id, the application, the session
  -- state, the origin, the destination host and realm if they are given, the first
  -- OC-Supported-Features of the application, the features if they are given, the identity, and the
  -- type of the authorization if it asks for capabilities; then what the application gives besides.
  pub lir_avps-order :
      (p : LirParam) (host realm : Option (List ℕ)) (sf : Option (List Feature))
      (extra : List MsgAvp)
      → lir_avps cx p (lists_from (request_opts cx host realm sf) extra)
        ≡ extra_last (
            ready
              (head_of cx p.realm_host.orig_host p.realm_host.orig_realm
                ++ (opt_text 293 host
                    ++ (opt_text 283 realm
                        ++ (found 621 extra
                            ++ (opt_features cx sf
                                ++ (plain (enc_avp 601 (pl p.pub_id))
                                    ∷ (if p.user_auth_type == reg_and_cap
                                        then plain (enc_avp 623 (num p.user_auth_type)) ∷ []
                                        else [])))))))
              (without 621 extra))
  unfolding lir_avps cx_head head_of
  lir_avps-order p host realm sf extra =
      let (dh, dr, features, rest, _, _) = request_opts-found cx host realm sf in
      simp (step_laws, laws) (simp (found_laws, laws) (simp (dh, dr, features, rest)))

  -- In a Server-Assignment-Request the AVPs stand in this order: the session id, the application, the
  -- session state, the origin, the destination host and realm and the user name if they are given, the
  -- first OC-Supported-Features of the application, the features if they are given, the identity, the
  -- server, the type of the assignment, whether the user data is there, and the indication of
  -- multiple registrations if it exists and there is restoration info; then what the application gives
  -- besides.
  pub sar_avps-order :
      (p : SarParam) (host realm : Option (List ℕ)) (sf : Option (List Feature))
      (extra : List MsgAvp)
      → sar_avps cx p (lists_from (request_opts cx host realm sf) extra)
        ≡ extra_last (
            ready
              (head_of cx p.realm_host.orig_host p.realm_host.orig_realm
                ++ (opt_text 293 host
                    ++ (opt_text 283 realm
                        ++ (opt_text 1 p.user_name
                            ++ (found 621 extra
                                ++ (opt_features cx sf
                                    ++ (plain (enc_avp 601 (pl p.pub_id))
                                        ∷ plain (enc_avp 602 (pl p.server_name))
                                        ∷ plain
                                            (enc_avp 614 (num p.sar_info.server_assignment_type))
                                        ∷ plain (enc_avp 624 (num p.sar_info.user_data_available))
                                        ∷ (if p.sar_info.restoration_info
                                              && exists p.sar_info.multi_reg_ind
                                            then plain (
                                                enc_avp 648
                                                  (num (ind_value p.sar_info.multi_reg_ind)))
                                              ∷ []
                                            else []))))))))
              (without 621 extra))
  unfolding sar_avps cx_head head_of
  sar_avps-order p host realm sf extra =
      let (dh, dr, features, rest, _, _) = request_opts-found cx host realm sf in
      simp (step_laws, append_user_name-some, laws)
        (simp (found_laws, laws) (simp (dh, dr, features, rest)))

  -- In a Multimedia-Auth-Request the AVPs stand in this order: the session id, the application, the session
  -- state, the origin, the destination host if it is given, the realm of the parameters, the user name, the
  -- first OC-Supported-Features of the application, the features if they are given, the identity, the
  -- authentication data, the number of items, the server, and the destination realm that the caller
  -- gives; then what the application gives besides.
  pub mar_avps-order :
      (p : MarParam) (host realm : Option (List ℕ)) (sf : Option (List Feature))
      (extra : List MsgAvp)
      → mar_avps cx p (lists_from (request_opts cx host realm sf) extra)
        ≡ extra_last (
            ready
              (head_of cx p.realm_host.orig_host p.realm_host.orig_realm
                ++ (opt_text 293 host
                    ++ (plain (enc_avp 283 (pl p.realm_host.dest_realm))
                        ∷ plain (enc_avp 1 (pl p.user_name))
                        ∷ (found 621 extra
                            ++ (opt_features cx sf
                                ++ (plain (enc_avp 601 (pl p.pub_id))
                                    ∷ auth_data_avp cx p.auth_data
                                    ∷ plain (enc_avp 607 (num p.auth_item))
                                    ∷ plain (enc_avp 602 (pl p.server_name))
                                    ∷ opt_text 283 realm))))))
              (without 621 extra))
  unfolding mar_avps cx_head head_of
  mar_avps-order p host realm sf extra =
      let (dh, _, _, _, features, rest) = request_opts-found cx host realm sf in
      simp (step_laws, laws) (simp (found_laws, laws) (simp (dh, features, rest)))
