-- ===== src/Cmd/Demo.antt =====
-- Concrete parameters of the message builders, for the tests.
use diameter.Common.{ℕ, ◌≡◌, refl, arith, length, true, some, List, [], ◌∷◌, ◌++◌}
use diameter.Dict.Rows.{find_row}
use diameter.Dict.Base.{base_rows_1, base_rows_2}
use diameter.Dict.Cx.{cx_rows_1, cx_rows_2, cx_reused_rows}
use diameter.Dict.Info.{get_avp_info, base_get_avp_info, cx_get_avp_info, cx_get_reused_avp_info}
use diameter.Wire.Words.{be3, be4}
use diameter.Wire.Shape.{wire, wire_all, Fits, FitsAll}
use diameter.Cmd.Cx.LirTrip.{lir_list}
use diameter.Wire.Encode.{EncAvps, enc_avp, num, pl, grouped, no_avp}
use diameter.Wire.Message.{MsgAvp, plain}
use diameter.Wire.Demo.{ops, clock, blank, vsai}
use diameter.Cmd.Lists.{first_ops}
use diameter.Cmd.Parts.{AvpLists}
use diameter.Cmd.Param.{Env, get_host_realm}
use diameter.Cmd.Encoders.{SessSource, Feature}
use diameter.Cmd.Capabilities.{CerParam, Capabilities}
use diameter.Cmd.Cx.{CxEnv}
use diameter.Cmd.Cx.Sar.{SarParam, multi_reg}
use diameter.Cmd.Cx.Mar.{AuthData, MarParam, digest_aka, auth_aka}
use diameter.Cmd.Cx.Uar.{UarParam}
use diameter.Cmd.Cx.Uaa.{UaaParam, ServerCap}

abbrev pub env : Env
env = record {
  ops = ops;
  source = clock;
  h2h_id = 0;
  fresh = some blank;
  host = 104 ∷ 49 ∷ [];
  realm = 114 ∷ 49 ∷ 46 ∷ [];
}

-- The host, a semicolon and the counter.
abbrev pub sess : SessSource
sess = record {
  tv_sec = 5;
  tv_nsec = 6;
  optional_value = 7;
  print = λ host s ns v. host ++ (59 ∷ v ∷ []);
}

abbrev pub cx : CxEnv
cx = record { env = env; sess = sess; lists = first_ops }

abbrev pub public_id : List ℕ
public_id = 115 ∷ 105 ∷ 112 ∷ []

abbrev pub peer_host : List ℕ
peer_host = 104 ∷ 50 ∷ []

abbrev pub peer_realm : List ℕ
peer_realm = 114 ∷ 50 ∷ []

abbrev pub feature : Feature
feature = record { vendor_id = 10415; feature_list_id = 1; feature_list = 3 }

abbrev pub proxy : MsgAvp
proxy = plain (enc_avp 284 (grouped no_avp))

abbrev pub route : MsgAvp
route = plain (enc_avp 282 (pl (114 ∷ [])))

abbrev pub unknown : MsgAvp
unknown = plain (enc_avp 9000 (num 1))

-- What an application gives, in an order that the message does not keep.
abbrev pub extra : List MsgAvp
extra = route ∷ plain (enc_avp 621 (num 2)) ∷ proxy ∷ unknown ∷ []

abbrev pub some_lists : AvpLists
some_lists = record { out = unknown ∷ []; opt = unknown ∷ proxy ∷ unknown ∷ []; extra = extra }

abbrev pub cer_param : CerParam
cer_param = record {
  realm_host = get_host_realm env.host env.realm;
  host_ip_list = record { count = 2; first = 1 ∷ 2 ∷ []; more = (3 ∷ []) ∷ [] };
  vendor_id = 10415;
  product_name = 112 ∷ [];
}

abbrev pub capabilities : Capabilities
capabilities = record {
  vendor_id = 10415;
  orig_state_id = 77;
  supported_vendor_ids = 1 ∷ 2 ∷ 3 ∷ 4 ∷ 5 ∷ 6 ∷ [];
  auth_app_ids = 16777216 ∷ [];
  acct_app_ids = [];
  vendor_specific_app_ids = vsai ∷ [];
  firmware_rev = some 3;
}

abbrev pub sar_param : SarParam
sar_param = record {
  realm_host = get_host_realm env.host env.realm;
  user_name = some (117 ∷ []);
  pub_id = public_id;
  server_name = 115 ∷ [];
  sar_info = record {
    server_assignment_type = 1;
    user_data_available = 0;
    multi_reg_ind = multi_reg;
    restoration_info = true;
  };
}

abbrev pub auth_data : AuthData
auth_data = record {
  is_req = true;
  scheme = digest_aka;
  auth_item = 3;
  authorization = 9 ∷ [];
  resp = auth_aka 0 [] [] [] [];
}

abbrev pub mar_param : MarParam
mar_param = record {
  realm_host = get_host_realm env.host env.realm;
  user_name = 117 ∷ [];
  pub_id = public_id;
  auth_data = auth_data;
  auth_item = 3;
  server_name = 115 ∷ [];
}

abbrev pub uar_param : UarParam
uar_param = record {
  realm_host = get_host_realm env.host env.realm;
  user_name = 117 ∷ [];
  pub_id = public_id;
  visited_network = 118 ∷ [];
}

abbrev pub uaa_param : UaaParam
uaa_param = record {
  realm_host = get_host_realm env.host env.realm;
  result_code = record { is_result_code = true; code = 2001 };
  sess_id = 115 ∷ [];
}

-- Two mandatory capabilities are in use, and one server.
abbrev pub server_cap : ServerCap
server_cap = record {
  msc = 11 ∷ 12 ∷ 0 ∷ 0 ∷ 0 ∷ 0 ∷ 0 ∷ 0 ∷ 0 ∷ 0 ∷ [];
  msc_num = 2;
  osc = 0 ∷ 0 ∷ 0 ∷ 0 ∷ 0 ∷ 0 ∷ 0 ∷ 0 ∷ 0 ∷ 0 ∷ [];
  osc_num = 0;
  server_name = (115 ∷ []) ∷ [];
  server_name_num = 1;
}

abbrev pub origin : List MsgAvp
origin = plain (enc_avp 264 (pl env.host)) ∷ plain (enc_avp 296 (pl env.realm)) ∷ []

abbrev pub request : EncAvps
request = lir_list cx public_id peer_host peer_realm feature 2

pub lir_len : length (wire_all 302 request) ≡ 192
unfolding wire be3 be4 get_avp_info base_get_avp_info cx_get_avp_info cx_get_reused_avp_info
    find_row base_rows_1 base_rows_2 cx_rows_1 cx_rows_2 cx_reused_rows
lir_len = refl

pub request-Fits : FitsAll 302 request
unfolding Fits wire be3 be4 get_avp_info base_get_avp_info cx_get_avp_info cx_get_reused_avp_info
    find_row base_rows_1 base_rows_2 cx_rows_1 cx_rows_2 cx_reused_rows
request-Fits = (
  (omega arith, omega arith),
  (
    (omega arith, (((omega arith, tt), ((omega arith, tt), tt)), omega arith)),
    (
      (omega arith, tt),
      (
        (omega arith, omega arith),
        (
          (omega arith, omega arith),
          (
            (omega arith, omega arith),
            (
              (omega arith, omega arith),
              (
                (
                  omega arith,
                  (((omega arith, tt), ((omega arith, tt), ((omega arith, tt), tt))), omega arith),
                ),
                ((omega arith, omega arith), ((omega arith, tt), tt)),
              ),
            ),
          ),
        ),
      ),
    ),
  ),
)
