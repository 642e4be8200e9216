-- ===== src/Audio/Tables.antt =====
-- The decoding tables of src/audio/G711Decoder.cpp, as whole numbers.
use callx.Prelude.{ℤ, pos, neg, List, [], ◌∷◌, ◌++◌}

-- `alawDecodeTab`
abbrev pub alaw_decode_tab : List ℤ
alaw_decode_tab =
    (neg 5504 ∷ neg 5248 ∷ neg 6016 ∷ neg 5760 ∷ neg 4480 ∷ neg 4224 ∷ neg 4992 ∷ [])
    ++ (neg 4736 ∷ neg 7552 ∷ neg 7296 ∷ neg 8064 ∷ neg 7808 ∷ neg 6528 ∷ neg 6272 ∷ [])
    ++ (neg 7040 ∷ neg 6784 ∷ neg 2752 ∷ neg 2624 ∷ neg 3008 ∷ neg 2880 ∷ neg 2240 ∷ [])
    ++ (neg 2112 ∷ neg 2496 ∷ neg 2368 ∷ neg 3776 ∷ neg 3648 ∷ neg 4032 ∷ neg 3904 ∷ [])
    ++ (neg 3264 ∷ neg 3136 ∷ neg 3520 ∷ neg 3392 ∷ neg 22016 ∷ neg 20992 ∷ neg 24064 ∷ [])
    ++ (neg 23040 ∷ neg 17920 ∷ neg 16896 ∷ neg 19968 ∷ neg 18944 ∷ neg 30208 ∷ neg 29184 ∷ [])
    ++ (neg 32256 ∷ neg 31232 ∷ neg 26112 ∷ neg 25088 ∷ neg 28160 ∷ neg 27136 ∷ neg 11008 ∷ [])
    ++ (neg 10496 ∷ neg 12032 ∷ neg 11520 ∷ neg 8960 ∷ neg 8448 ∷ neg 9984 ∷ neg 9472 ∷ [])
    ++ (neg 15104 ∷ neg 14592 ∷ neg 16128 ∷ neg 15616 ∷ neg 13056 ∷ neg 12544 ∷ neg 14080 ∷ [])
    ++ (neg 13568 ∷ neg 344 ∷ neg 328 ∷ neg 376 ∷ neg 360 ∷ neg 280 ∷ neg 264 ∷ [])
    ++ (neg 312 ∷ neg 296 ∷ neg 472 ∷ neg 456 ∷ neg 504 ∷ neg 488 ∷ neg 408 ∷ [])
    ++ (neg 392 ∷ neg 440 ∷ neg 424 ∷ neg 88 ∷ neg 72 ∷ neg 120 ∷ neg 104 ∷ [])
    ++ (neg 24 ∷ neg 8 ∷ neg 56 ∷ neg 40 ∷ neg 216 ∷ neg 200 ∷ neg 248 ∷ [])
    ++ (neg 232 ∷ neg 152 ∷ neg 136 ∷ neg 184 ∷ neg 168 ∷ neg 1376 ∷ neg 1312 ∷ [])
    ++ (neg 1504 ∷ neg 1440 ∷ neg 1120 ∷ neg 1056 ∷ neg 1248 ∷ neg 1184 ∷ neg 1888 ∷ [])
    ++ (neg 1824 ∷ neg 2016 ∷ neg 1952 ∷ neg 1632 ∷ neg 1568 ∷ neg 1760 ∷ neg 1696 ∷ [])
    ++ (neg 688 ∷ neg 656 ∷ neg 752 ∷ neg 720 ∷ neg 560 ∷ neg 528 ∷ neg 624 ∷ [])
    ++ (neg 592 ∷ neg 944 ∷ neg 912 ∷ neg 1008 ∷ neg 976 ∷ neg 816 ∷ neg 784 ∷ [])
    ++ (neg 880 ∷ neg 848 ∷ pos 5504 ∷ pos 5248 ∷ pos 6016 ∷ pos 5760 ∷ pos 4480 ∷ [])
    ++ (pos 4224 ∷ pos 4992 ∷ pos 4736 ∷ pos 7552 ∷ pos 7296 ∷ pos 8064 ∷ pos 7808 ∷ [])
    ++ (pos 6528 ∷ pos 6272 ∷ pos 7040 ∷ pos 6784 ∷ pos 2752 ∷ pos 2624 ∷ pos 3008 ∷ [])
    ++ (pos 2880 ∷ pos 2240 ∷ pos 2112 ∷ pos 2496 ∷ pos 2368 ∷ pos 3776 ∷ pos 3648 ∷ [])
    ++ (pos 4032 ∷ pos 3904 ∷ pos 3264 ∷ pos 3136 ∷ pos 3520 ∷ pos 3392 ∷ pos 22016 ∷ [])
    ++ (pos 20992 ∷ pos 24064 ∷ pos 23040 ∷ pos 17920 ∷ pos 16896 ∷ pos 19968 ∷ pos 18944 ∷ [])
    ++ (pos 30208 ∷ pos 29184 ∷ pos 32256 ∷ pos 31232 ∷ pos 26112 ∷ pos 25088 ∷ pos 28160 ∷ [])
    ++ (pos 27136 ∷ pos 11008 ∷ pos 10496 ∷ pos 12032 ∷ pos 11520 ∷ pos 8960 ∷ pos 8448 ∷ [])
    ++ (pos 9984 ∷ pos 9472 ∷ pos 15104 ∷ pos 14592 ∷ pos 16128 ∷ pos 15616 ∷ pos 13056 ∷ [])
    ++ (pos 12544 ∷ pos 14080 ∷ pos 13568 ∷ pos 344 ∷ pos 328 ∷ pos 376 ∷ pos 360 ∷ [])
    ++ (pos 280 ∷ pos 264 ∷ pos 312 ∷ pos 296 ∷ pos 472 ∷ pos 456 ∷ pos 504 ∷ [])
    ++ (pos 488 ∷ pos 408 ∷ pos 392 ∷ pos 440 ∷ pos 424 ∷ pos 88 ∷ pos 72 ∷ [])
    ++ (pos 120 ∷ pos 104 ∷ pos 24 ∷ pos 8 ∷ pos 56 ∷ pos 40 ∷ pos 216 ∷ [])
    ++ (pos 200 ∷ pos 248 ∷ pos 232 ∷ pos 152 ∷ pos 136 ∷ pos 184 ∷ pos 168 ∷ [])
    ++ (pos 1376 ∷ pos 1312 ∷ pos 1504 ∷ pos 1440 ∷ pos 1120 ∷ pos 1056 ∷ pos 1248 ∷ [])
    ++ (pos 1184 ∷ pos 1888 ∷ pos 1824 ∷ pos 2016 ∷ pos 1952 ∷ pos 1632 ∷ pos 1568 ∷ [])
    ++ (pos 1760 ∷ pos 1696 ∷ pos 688 ∷ pos 656 ∷ pos 752 ∷ pos 720 ∷ pos 560 ∷ [])
    ++ (pos 528 ∷ pos 624 ∷ pos 592 ∷ pos 944 ∷ pos 912 ∷ pos 1008 ∷ pos 976 ∷ [])
    ++ (pos 816 ∷ pos 784 ∷ pos 880 ∷ pos 848 ∷ [])

-- `ulawDecodeTab`
abbrev pub ulaw_decode_tab : List ℤ
ulaw_decode_tab =
    (neg 32124 ∷ neg 31100 ∷ neg 30076 ∷ neg 29052 ∷ neg 28028 ∷ neg 27004 ∷ neg 25980 ∷ [])
    ++ (neg 24956 ∷ neg 23932 ∷ neg 22908 ∷ neg 21884 ∷ neg 20860 ∷ neg 19836 ∷ neg 18812 ∷ [])
    ++ (neg 17788 ∷ neg 16764 ∷ neg 15996 ∷ neg 15484 ∷ neg 14972 ∷ neg 14460 ∷ neg 13948 ∷ [])
    ++ (neg 13436 ∷ neg 12924 ∷ neg 12412 ∷ neg 11900 ∷ neg 11388 ∷ neg 10876 ∷ neg 10364 ∷ [])
    ++ (neg 9852 ∷ neg 9340 ∷ neg 8828 ∷ neg 8316 ∷ neg 7932 ∷ neg 7676 ∷ neg 7420 ∷ [])
    ++ (neg 7164 ∷ neg 6908 ∷ neg 6652 ∷ neg 6396 ∷ neg 6140 ∷ neg 5884 ∷ neg 5628 ∷ [])
    ++ (neg 5372 ∷ neg 5116 ∷ neg 4860 ∷ neg 4604 ∷ neg 4348 ∷ neg 4092 ∷ neg 3900 ∷ [])
    ++ (neg 3772 ∷ neg 3644 ∷ neg 3516 ∷ neg 3388 ∷ neg 3260 ∷ neg 3132 ∷ neg 3004 ∷ [])
    ++ (neg 2876 ∷ neg 2748 ∷ neg 2620 ∷ neg 2492 ∷ neg 2364 ∷ neg 2236 ∷ neg 2108 ∷ [])
    ++ (neg 1980 ∷ neg 1884 ∷ neg 1820 ∷ neg 1756 ∷ neg 1692 ∷ neg 1628 ∷ neg 1564 ∷ [])
    ++ (neg 1500 ∷ neg 1436 ∷ neg 1372 ∷ neg 1308 ∷ neg 1244 ∷ neg 1180 ∷ neg 1116 ∷ [])
    ++ (neg 1052 ∷ neg 988 ∷ neg 924 ∷ neg 876 ∷ neg 844 ∷ neg 812 ∷ neg 780 ∷ [])
    ++ (neg 748 ∷ neg 716 ∷ neg 684 ∷ neg 652 ∷ neg 620 ∷ neg 588 ∷ neg 556 ∷ [])
    ++ (neg 524 ∷ neg 492 ∷ neg 460 ∷ neg 428 ∷ neg 396 ∷ neg 372 ∷ neg 356 ∷ [])
    ++ (neg 340 ∷ neg 324 ∷ neg 308 ∷ neg 292 ∷ neg 276 ∷ neg 260 ∷ neg 244 ∷ [])
    ++ (neg 228 ∷ neg 212 ∷ neg 196 ∷ neg 180 ∷ neg 164 ∷ neg 148 ∷ neg 132 ∷ [])
    ++ (neg 120 ∷ neg 112 ∷ neg 104 ∷ neg 96 ∷ neg 88 ∷ neg 80 ∷ neg 72 ∷ [])
    ++ (neg 64 ∷ neg 56 ∷ neg 48 ∷ neg 40 ∷ neg 32 ∷ neg 24 ∷ neg 16 ∷ [])
    ++ (neg 8 ∷ pos 0 ∷ pos 32124 ∷ pos 31100 ∷ pos 30076 ∷ pos 29052 ∷ pos 28028 ∷ [])
    ++ (pos 27004 ∷ pos 25980 ∷ pos 24956 ∷ pos 23932 ∷ pos 22908 ∷ pos 21884 ∷ pos 20860 ∷ [])
    ++ (pos 19836 ∷ pos 18812 ∷ pos 17788 ∷ pos 16764 ∷ pos 15996 ∷ pos 15484 ∷ pos 14972 ∷ [])
    ++ (pos 14460 ∷ pos 13948 ∷ pos 13436 ∷ pos 12924 ∷ pos 12412 ∷ pos 11900 ∷ pos 11388 ∷ [])
    ++ (pos 10876 ∷ pos 10364 ∷ pos 9852 ∷ pos 9340 ∷ pos 8828 ∷ pos 8316 ∷ pos 7932 ∷ [])
    ++ (pos 7676 ∷ pos 7420 ∷ pos 7164 ∷ pos 6908 ∷ pos 6652 ∷ pos 6396 ∷ pos 6140 ∷ [])
    ++ (pos 5884 ∷ pos 5628 ∷ pos 5372 ∷ pos 5116 ∷ pos 4860 ∷ pos 4604 ∷ pos 4348 ∷ [])
    ++ (pos 4092 ∷ pos 3900 ∷ pos 3772 ∷ pos 3644 ∷ pos 3516 ∷ pos 3388 ∷ pos 3260 ∷ [])
    ++ (pos 3132 ∷ pos 3004 ∷ pos 2876 ∷ pos 2748 ∷ pos 2620 ∷ pos 2492 ∷ pos 2364 ∷ [])
    ++ (pos 2236 ∷ pos 2108 ∷ pos 1980 ∷ pos 1884 ∷ pos 1820 ∷ pos 1756 ∷ pos 1692 ∷ [])
    ++ (pos 1628 ∷ pos 1564 ∷ pos 1500 ∷ pos 1436 ∷ pos 1372 ∷ pos 1308 ∷ pos 1244 ∷ [])
    ++ (pos 1180 ∷ pos 1116 ∷ pos 1052 ∷ pos 988 ∷ pos 924 ∷ pos 876 ∷ pos 844 ∷ [])
    ++ (pos 812 ∷ pos 780 ∷ pos 748 ∷ pos 716 ∷ pos 684 ∷ pos 652 ∷ pos 620 ∷ [])
    ++ (pos 588 ∷ pos 556 ∷ pos 524 ∷ pos 492 ∷ pos 460 ∷ pos 428 ∷ pos 396 ∷ [])
    ++ (pos 372 ∷ pos 356 ∷ pos 340 ∷ pos 324 ∷ pos 308 ∷ pos 292 ∷ pos 276 ∷ [])
    ++ (pos 260 ∷ pos 244 ∷ pos 228 ∷ pos 212 ∷ pos 196 ∷ pos 180 ∷ pos 164 ∷ [])
    ++ (pos 148 ∷ pos 132 ∷ pos 120 ∷ pos 112 ∷ pos 104 ∷ pos 96 ∷ pos 88 ∷ [])
    ++ (pos 80 ∷ pos 72 ∷ pos 64 ∷ pos 56 ∷ pos 48 ∷ pos 40 ∷ pos 32 ∷ [])
    ++ (pos 24 ∷ pos 16 ∷ pos 8 ∷ pos 0 ∷ [])
