-- ===== src/Const/Crypto.antt =====
-- const.py, "Crypto": the RC4 key and the table of the handshake verifier.
use hass_melitta_barista_ts.Prelude.{ℕ, List, [], ◌∷◌, map}
use hass_melitta_barista_ts.Prelude.Int.{ℤ, pos, negsuc, low_byte}

-- The ASCII bytes of "MEL_090217_V10_?R4.wozJ!(*q2ds3#".
abbrev pub rc4_key : List ℕ
rc4_key =
    77 ∷ 69 ∷ 76 ∷ 95 ∷ 48 ∷ 57 ∷ 48 ∷ 50 ∷ 49 ∷ 55 ∷ 95 ∷ 86 ∷ 49 ∷ 48 ∷ 95 ∷ 63 ∷ 82 ∷ 52 ∷ 46
    ∷ 119 ∷ 111 ∷ 122 ∷ 74 ∷ 33 ∷ 40 ∷ 42 ∷ 113 ∷ 50 ∷ 100 ∷ 115 ∷ 51 ∷ 35 ∷ []

-- The table as the source writes it, with signed bytes.
abbrev hu_table_signed : List ℤ
hu_table_signed =
    pos 98
    ∷ pos 6
    ∷ pos 85
    ∷ negsuc 105
    ∷ pos 36
    ∷ pos 23
    ∷ pos 112
    ∷ negsuc 91
    ∷ negsuc 120
    ∷ negsuc 48
    ∷ negsuc 86
    ∷ pos 5
    ∷ pos 26
    ∷ pos 64
    ∷ negsuc 90
    ∷ negsuc 36
    ∷ pos 61
    ∷ pos 20
    ∷ pos 68
    ∷ pos 89
    ∷ negsuc 125
    ∷ pos 63
    ∷ pos 52
    ∷ pos 102
    ∷ pos 24
    ∷ negsuc 26
    ∷ negsuc 123
    ∷ negsuc 10
    ∷ pos 80
    ∷ negsuc 39
    ∷ negsuc 60
    ∷ pos 115
    ∷ pos 90
    ∷ negsuc 87
    ∷ negsuc 99
    ∷ negsuc 52
    ∷ negsuc 78
    ∷ pos 120
    ∷ pos 2
    ∷ negsuc 65
    ∷ negsuc 67
    ∷ pos 7
    ∷ pos 100
    ∷ negsuc 70
    ∷ negsuc 81
    ∷ negsuc 12
    ∷ negsuc 93
    ∷ pos 10
    ∷ negsuc 18
    ∷ pos 18
    ∷ negsuc 2
    ∷ negsuc 30
    ∷ pos 8
    ∷ negsuc 47
    ∷ negsuc 83
    ∷ negsuc 11
    ∷ negsuc 0
    ∷ pos 126
    ∷ pos 101
    ∷ pos 79
    ∷ negsuc 110
    ∷ negsuc 20
    ∷ negsuc 27
    ∷ pos 121
    ∷ pos 123
    ∷ negsuc 4
    ∷ pos 67
    ∷ negsuc 5
    ∷ negsuc 94
    ∷ pos 0
    ∷ pos 107
    ∷ pos 97
    ∷ negsuc 14
    ∷ pos 111
    ∷ negsuc 74
    ∷ pos 82
    ∷ negsuc 6
    ∷ pos 33
    ∷ pos 69
    ∷ pos 55
    ∷ pos 59
    ∷ negsuc 102
    ∷ pos 29
    ∷ pos 9
    ∷ negsuc 42
    ∷ negsuc 88
    ∷ pos 84
    ∷ pos 93
    ∷ pos 30
    ∷ pos 46
    ∷ pos 94
    ∷ pos 75
    ∷ negsuc 104
    ∷ pos 114
    ∷ pos 73
    ∷ negsuc 33
    ∷ negsuc 58
    ∷ pos 96
    ∷ negsuc 45
    ∷ pos 45
    ∷ pos 16
    ∷ negsuc 28
    ∷ negsuc 7
    ∷ negsuc 53
    ∷ pos 51
    ∷ negsuc 103
    ∷ negsuc 3
    ∷ pos 125
    ∷ pos 81
    ∷ negsuc 49
    ∷ negsuc 40
    ∷ negsuc 69
    ∷ pos 39
    ∷ negsuc 97
    ∷ negsuc 77
    ∷ negsuc 68
    ∷ negsuc 124
    ∷ negsuc 119
    ∷ pos 1
    ∷ pos 49
    ∷ pos 50
    ∷ pos 17
    ∷ negsuc 114
    ∷ pos 91
    ∷ pos 47
    ∷ negsuc 126
    ∷ pos 60
    ∷ pos 99
    ∷ negsuc 101
    ∷ pos 35
    ∷ pos 86
    ∷ negsuc 84
    ∷ pos 105
    ∷ pos 34
    ∷ pos 38
    ∷ negsuc 55
    ∷ negsuc 108
    ∷ pos 58
    ∷ pos 77
    ∷ pos 118
    ∷ negsuc 82
    ∷ negsuc 9
    ∷ pos 76
    ∷ negsuc 1
    ∷ negsuc 122
    ∷ negsuc 23
    ∷ negsuc 59
    ∷ negsuc 111
    ∷ negsuc 57
    ∷ pos 124
    ∷ pos 53
    ∷ pos 4
    ∷ pos 108
    ∷ pos 74
    ∷ negsuc 32
    ∷ negsuc 21
    ∷ negsuc 121
    ∷ negsuc 25
    ∷ negsuc 98
    ∷ negsuc 116
    ∷ negsuc 66
    ∷ negsuc 50
    ∷ negsuc 56
    ∷ negsuc 127
    ∷ negsuc 79
    ∷ pos 19
    ∷ negsuc 44
    ∷ negsuc 19
    ∷ pos 127
    ∷ negsuc 63
    ∷ negsuc 24
    ∷ pos 70
    ∷ negsuc 22
    ∷ pos 88
    ∷ negsuc 109
    ∷ pos 44
    ∷ negsuc 72
    ∷ negsuc 54
    ∷ pos 22
    ∷ pos 83
    ∷ pos 13
    ∷ negsuc 41
    ∷ pos 116
    ∷ pos 109
    ∷ negsuc 96
    ∷ pos 32
    ∷ pos 95
    ∷ negsuc 29
    ∷ negsuc 115
    ∷ negsuc 35
    ∷ pos 57
    ∷ pos 12
    ∷ negsuc 34
    ∷ pos 31
    ∷ negsuc 46
    ∷ negsuc 73
    ∷ negsuc 112
    ∷ pos 92
    ∷ negsuc 106
    ∷ negsuc 71
    ∷ negsuc 107
    ∷ pos 62
    ∷ pos 113
    ∷ pos 65
    ∷ pos 37
    ∷ pos 27
    ∷ pos 106
    ∷ negsuc 89
    ∷ pos 3
    ∷ pos 14
    ∷ negsuc 51
    ∷ pos 72
    ∷ pos 21
    ∷ pos 41
    ∷ pos 56
    ∷ pos 66
    ∷ pos 28
    ∷ negsuc 62
    ∷ pos 40
    ∷ negsuc 38
    ∷ pos 25
    ∷ pos 54
    ∷ negsuc 76
    ∷ pos 117
    ∷ negsuc 17
    ∷ pos 87
    ∷ negsuc 15
    ∷ negsuc 100
    ∷ negsuc 75
    ∷ negsuc 85
    ∷ negsuc 13
    ∷ negsuc 43
    ∷ negsuc 64
    ∷ negsuc 92
    ∷ pos 78
    ∷ negsuc 37
    ∷ negsuc 118
    ∷ negsuc 61
    ∷ negsuc 80
    ∷ pos 110
    ∷ pos 43
    ∷ pos 119
    ∷ negsuc 31
    ∷ pos 71
    ∷ pos 122
    ∷ negsuc 113
    ∷ pos 42
    ∷ negsuc 95
    ∷ pos 104
    ∷ pos 48
    ∷ negsuc 8
    ∷ pos 103
    ∷ pos 15
    ∷ pos 11
    ∷ negsuc 117
    ∷ negsuc 16
    ∷ []

-- `b & 0xFF` of each.
abbrev pub hu_table : List ℕ
hu_table = map low_byte hu_table_signed
