-- ===== src/Dict/Cx.antt =====
-- The AVPs of the Cx interface: the switches of `diaCxGetAvpInfo` and `diaCxGetReusedAvpInfo`
-- (diaCx/src/diaCx.c), with the codes of diaCx/include/diaCxAvp.h.
use diameter.Common.{List, [], ◌∷◌}
use diameter.Msg.{
  diam_iden_type, enum_type, grouped_type, octet_string_type, time_type, uint32_type,
  utf8_string_type,
}
use diameter.Dict.Rows.{AvpRow, row}

unfoldable pub cx_rows_1 : List AvpRow
cx_rows_1 =
    row 656 0x80 grouped_type
    ∷ row 632 0x80 grouped_type
    ∷ row 647 0x80 grouped_type
    ∷ row 720 0x80 grouped_type
    ∷ row 643 0xc0 octet_string_type
    ∷ row 618 0xc0 grouped_type
    ∷ row 625 0xc0 octet_string_type
    ∷ row 641 0x80 octet_string_type
    ∷ row 615 0xc0 grouped_type
    ∷ row 630 0x80 uint32_type
    ∷ row 629 0x80 uint32_type
    ∷ row 644 0x80 octet_string_type
    ∷ row 651 0x80 grouped_type
    ∷ row 654 0x80 uint32_type
    ∷ row 626 0x80 octet_string_type
    ∷ row 653 0x80 uint32_type
    ∷ row 638 0x80 enum_type
    ∷ row 604 0xc0 uint32_type
    ∷ row 648 0x80 enum_type
    ∷ row 605 0xc0 uint32_type
    ∷ row 633 0xc0 enum_type
    ∷ row 640 0x80 octet_string_type
    ∷ row 660 0x80 grouped_type
    ∷ row 621 0xc0 diam_iden_type
    ∷ row 619 0xc0 diam_iden_type
    ∷ row 652 0x80 enum_type
    ∷ row 601 0xc0 utf8_string_type
    ∷ row 616 0xc0 enum_type
    ∷ row 617 0xc0 utf8_string_type
    ∷ row 646 0x80 octet_string_type
    ∷ row 661 0x80 time_type
    ∷ row 706 0xc0 enum_type
    ∷ []

unfoldable pub cx_rows_2 : List AvpRow
cx_rows_2 =
    row 649 0x80 grouped_type
    ∷ row 659 0x80 uint32_type
    ∷ row 655 0x80 uint32_type
    ∷ row 639 0x80 grouped_type
    ∷ row 622 0xc0 diam_iden_type
    ∷ row 620 0xc0 diam_iden_type
    ∷ row 650 0x80 enum_type
    ∷ row 614 0xc0 enum_type
    ∷ row 603 0xc0 grouped_type
    ∷ row 714 0x80 enum_type
    ∷ row 602 0xc0 utf8_string_type
    ∷ row 609 0xc0 utf8_string_type
    ∷ row 610 0xc0 utf8_string_type
    ∷ row 611 0xc0 utf8_string_type
    ∷ row 612 0xc0 grouped_type
    ∷ row 608 0xc0 utf8_string_type
    ∷ row 635 0x80 grouped_type
    ∷ row 613 0xc0 uint32_type
    ∷ row 607 0xc0 uint32_type
    ∷ row 642 0x80 grouped_type
    ∷ row 631 0x80 grouped_type
    ∷ row 628 0x80 grouped_type
    ∷ row 645 0xc0 octet_string_type
    ∷ row 637 0x80 uint32_type
    ∷ row 623 0xc0 enum_type
    ∷ row 606 0xc0 octet_string_type
    ∷ row 624 0xc0 enum_type
    ∷ row 600 0xc0 octet_string_type
    ∷ row 657 0x80 utf8_string_type
    ∷ row 658 0x80 utf8_string_type
    ∷ row 634 0x80 utf8_string_type
    ∷ []

unfoldable pub cx_reused_rows : List AvpRow
cx_reused_rows =
    row 111 0x40 utf8_string_type
    ∷ row 121 0x40 utf8_string_type
    ∷ row 110 0x40 utf8_string_type
    ∷ row 104 0x40 utf8_string_type
    ∷ row 301 0x00 enum_type
    ∷ row 8 0x40 utf8_string_type
    ∷ row 97 0x40 utf8_string_type
    ∷ row 650 0x00 grouped_type
    ∷ row 623 0x00 grouped_type
    ∷ row 621 0x00 grouped_type
    ∷ []
