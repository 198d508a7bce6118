-- ===== src/Wire/Fuel.antt =====
-- The decoder takes no more fuel than the layout has bytes.
use diameter.Common.{ℕ, ◌+◌, ◌≤◌, arith, length, length-append}
use diameter.Dict.Info.{AvpInfo, get_avp_info}
use diameter.Wire.Encode.{EncAvp, EncData, EncAvps, enc_avp, num, pl, grouped, no_avp, add_avp}
use diameter.Wire.Shape.{
  Shape, word32, word64, text, members, nothing, shape_of, wire, wire_value, wire_all, Fits, FitsAs,
  FitsAll, length-framed,
}
use diameter.Wire.Decoded.{cost, cost_value, cost_all, hdr_len-ge}

mutual
  unfolding wire Fits cost

  pub cost-le : (cmd : ℕ) (a : EncAvp) → Fits cmd a → cost a + 5 ≤ length (wire cmd a)
  cost-le cmd (enc_avp code v) h =
      let i = get_avp_info cmd code in
      let s = shape_of i.data_type in
      omega (
        arith,
        cost_value-le cmd i s v (h.1),
        length-framed code i (wire_value cmd s v),
        hdr_len-ge i.flag,
      )

  cost_value-le :
      (cmd : ℕ) (i : AvpInfo) (s : Shape) (v : EncData)
      → FitsAs cmd i s v
      → cost_value v ≤ 2 + length (wire_value cmd s v)
  cost_value-le cmd i s (num n) h = omega arith
  cost_value-le cmd i s (pl l) h = omega arith
  cost_value-le cmd i members (grouped l) h = omega (arith, cost_all-le cmd l (h.0))
  cost_value-le cmd i word32 (grouped l) h = elim h [ ]
  cost_value-le cmd i word64 (grouped l) h = elim h [ ]
  cost_value-le cmd i text (grouped l) h = elim h [ ]
  cost_value-le cmd i nothing (grouped l) h = elim h [ ]

  pub cost_all-le :
      (cmd : ℕ) (l : EncAvps) → FitsAll cmd l → cost_all l ≤ 1 + length (wire_all cmd l)
  cost_all-le cmd no_avp h = omega arith
  cost_all-le cmd (add_avp a l) h = omega (
    arith,
    cost-le cmd a (h.0),
    cost_all-le cmd l (h.1),
    length-append (wire cmd a) (wire_all cmd l),
  )
