-- ===== src/Checksum/Table.antt =====
-- tape_drivers/reed_solomon_crc.c: the table of the checksum.
use ltfs.Prelude.{ℕ, List, [], ◌∷◌}

abbrev pub rs_gf256_table : List ℕ
rs_gf256_table =
    0 ∷ 953104385 ∷ 1887662082 ∷ 1212958723 ∷ 3759923204 ∷ 3637827589 ∷ 2425917446 ∷ 2824316935
    ∷ 3711360264 ∷ 3858359561 ∷ 2914364682 ∷ 2507838731 ∷ 1026374924 ∷ 98698509 ∷ 1303268622
    ∷ 1969321231 ∷ 2808915728 ∷ 2678300433 ∷ 3622819602 ∷ 4011912979 ∷ 1198999316 ∷ 2142797589
    ∷ 938751766 ∷ 255528727 ∷ 2052749848 ∷ 1117078041 ∷ 181996058 ∷ 840315419 ∷ 2587990556
    ∷ 2727256605 ∷ 3938642462 ∷ 3524121119 ∷ 1406685984 ∷ 1796696865 ∷ 593175330 ∷ 462691107
    ∷ 3015947044 ∷ 2332855077 ∷ 3275801382 ∷ 4220517159 ∷ 2397998632 ∷ 3055662633 ∷ 4268621354
    ∷ 3332556331 ∷ 1861578284 ∷ 1446663725 ∷ 511057454 ∷ 649668143 ∷ 4105499696 ∷ 3430665265
    ∷ 2218230834 ∷ 3170417715 ∷ 347018292 ∷ 744500277 ∷ 1680630838 ∷ 1558404151 ∷ 696396088
    ∷ 290263353 ∷ 1493260602 ∷ 1640915259 ∷ 3382298940 ∷ 4049006909 ∷ 3105536318 ∷ 2178253119
    ∷ 2796398144 ∷ 2657263169 ∷ 3593393730 ∷ 4007784003 ∷ 1186350660 ∷ 2121891397 ∷ 909456966
    ∷ 251268679 ∷ 2073787208 ∷ 1129595721 ∷ 186125130 ∷ 869741387 ∷ 2608896844 ∷ 2739905357
    ∷ 3942902606 ∷ 3553416015 ∷ 29426000 ∷ 957233489 ∷ 1900179794 ∷ 1233996115 ∷ 3789218132
    ∷ 3642087765 ∷ 2438566230 ∷ 2845223255 ∷ 3707231320 ∷ 3828933721 ∷ 2893327450 ∷ 2495321179
    ∷ 1022114908 ∷ 69403741 ∷ 1282362462 ∷ 1956672607 ∷ 4118148448 ∷ 3451571553 ∷ 2247525730
    ∷ 3174677859 ∷ 359535972 ∷ 765537637 ∷ 1710056806 ∷ 1562533223 ∷ 675489896 ∷ 277614697
    ∷ 1489000554 ∷ 1611620459 ∷ 3361261676 ∷ 4036489325 ∷ 3101407342 ∷ 2148827247 ∷ 1377391216
    ∷ 1792436849 ∷ 580526706 ∷ 441784947 ∷ 2986521204 ∷ 2328726133 ∷ 3263283830 ∷ 4199479927
    ∷ 2402258808 ∷ 3084957561 ∷ 4289527674 ∷ 3345205115 ∷ 1865707388 ∷ 1476089725 ∷ 532094846
    ∷ 662185855 ∷ 1363628416 ∷ 1770547585 ∷ 566501762 ∷ 420157827 ∷ 2975641988 ∷ 2308147589
    ∷ 3252666758 ∷ 4178639239 ∷ 2356251784 ∷ 3032396937 ∷ 4243782794 ∷ 3292382347 ∷ 1818913932
    ∷ 1420121229 ∷ 485039246 ∷ 606479503 ∷ 4130076304 ∷ 3471101585 ∷ 2259191442 ∷ 3194470035
    ∷ 372250260 ∷ 788475541 ∷ 1723033238 ∷ 1585208983 ∷ 723331992 ∷ 332534681 ∷ 1537104794
    ∷ 1666278299 ∷ 3406220188 ∷ 4090098589 ∷ 3146103710 ∷ 2202698655 ∷ 43975328 ∷ 978336417
    ∷ 1914466978 ∷ 1255361187 ∷ 3800359588 ∷ 3662404261 ∷ 2449969830 ∷ 2865277607 ∷ 3752452008
    ∷ 3882280873 ∷ 2938810282 ∷ 2548406187 ∷ 1068646316 ∷ 125634477 ∷ 1328631726 ∷ 2013165487
    ∷ 2784208304 ∷ 2637995441 ∷ 3580941746 ∷ 3988778419 ∷ 1172850100 ∷ 2099740085 ∷ 896218550
    ∷ 228855223 ∷ 2026207416 ∷ 1074413753 ∷ 138807482 ∷ 814297275 ∷ 2564724924 ∷ 2685509821
    ∷ 3898468542 ∷ 3499282623 ∷ 4159371200 ∷ 3475361729 ∷ 2271840194 ∷ 3215376323 ∷ 401676228
    ∷ 792604613 ∷ 1735550918 ∷ 1606246343 ∷ 719071944 ∷ 303239881 ∷ 1516198602 ∷ 1653629643
    ∷ 3402091212 ∷ 4060672717 ∷ 3125066446 ∷ 2190181071 ∷ 1350979792 ∷ 1749641425 ∷ 537206994
    ∷ 415897811 ∷ 2963124436 ∷ 2287110357 ∷ 3223240918 ∷ 4174510295 ∷ 2377158104 ∷ 3045045721
    ∷ 4248042970 ∷ 3321677275 ∷ 1839951324 ∷ 1432638941 ∷ 489168350 ∷ 635905503 ∷ 2754782432
    ∷ 2633866465 ∷ 3568424162 ∷ 3967741155 ∷ 1143555300 ∷ 2095480037 ∷ 883569894 ∷ 207949031
    ∷ 2030336488 ∷ 1103839721 ∷ 159844842 ∷ 826814955 ∷ 2568985068 ∷ 2714804717 ∷ 3919374830
    ∷ 3511931375 ∷ 56493040 ∷ 999373809 ∷ 1943892978 ∷ 1259490291 ∷ 3813008372 ∷ 3683310581
    ∷ 2479264758 ∷ 2869537783 ∷ 3731414776 ∷ 3869763321 ∷ 2934681338 ∷ 2518980347 ∷ 1047740156
    ∷ 112985853 ∷ 1324371710 ∷ 1983870719 ∷ []
