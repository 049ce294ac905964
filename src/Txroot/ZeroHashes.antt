-- ===== src/Txroot/ZeroHashes.antt =====
-- lib/txroot/zerohashes.go: the table `ZeroHashes`. Each row is written as one number, whose 32
-- big-endian bytes are the row's bytes.
use mev_boost.Common.{ℕ, zero, suc, ◌/◌, ◌%◌, ◌^◌, ◌≡◌, refl, List, [], ◌∷◌, map, length, All}
use mev_boost.Types.{Hash}

big_endian : ℕ → ℕ → List ℕ
big_endian zero n = []
big_endian (suc k) n = n / 256 ^ k % 256 ∷ big_endian k n

zero_hash_numbers : List ℕ
zero_hash_numbers =
    0 ∷ 0xf5a5fd42d16a20302798ef6ed309979b43003d2320d9f0e8ea9831a92759fb4b
    ∷ 0xdb56114e00fdd4c1f85c892bf35ac9a89289aaecb1ebd0a96cde606a748b5d71
    ∷ 0xc78009fdf07fc56a11f122370658a353aaa542ed63e44c4bc15ff4cd105ab33c
    ∷ 0x536d98837f2dd165a55d5eeae91485954472d56f246df256bf3cae19352a123c
    ∷ 0x9efde052aa15429fae05bad4d0b1d7c64da64d03d7a1854a588c2cb8430c0d30
    ∷ 0xd88ddfeed400a8755596b21942c1497e114c302e6118290f91e6772976041fa1
    ∷ 0x87eb0ddba57e35f6d286673802a4af5975e22506c7cf4c64bb6be5ee11527f2c
    ∷ 0x26846476fd5fc54a5d43385167c95144f2643f533cc85bb9d16b782f8d7db193
    ∷ 0x506d86582d252405b840018792cad2bf1259f1ef5aa5f887e13cb2f0094f51e1
    ∷ 0xffff0ad7e659772f9534c195c815efc4014ef1e1daed4404c06385d11192e92b
    ∷ 0x6cf04127db05441cd833107a52be852868890e4317e6a02ab47683aa75964220
    ∷ 0xb7d05f875f140027ef5118a2247bbb84ce8f2f0f1123623085daf7960c329f5f
    ∷ 0xdf6af5f5bbdb6be9ef8aa618e4bf8073960867171e29676f8b284dea6a08a85e
    ∷ 0xb58d900f5e182e3c50ef74969ea16c7726c549757cc23523c369587da7293784
    ∷ 0xd49a7502ffcfb0340b1d7885688500ca308161a7f96b62df9d083b71fcc8f2bb
    ∷ 0x8fe6b1689256c0d385f42f5bbe2027a22c1996e110ba97c171d3e5948de92beb
    ∷ 0x8d0d63c39ebade8509e0ae3c9c3876fb5fa112be18f905ecacfecb92057603ab
    ∷ 0x95eec8b2e541cad4e91de38385f2e046619f54496c2382cb6cacd5b98c26f5a4
    ∷ 0xf893e908917775b62bff23294dbbe3a1cd8e6cc1c35b4801887b646a6f81f17f
    ∷ 0xcddba7b592e3133393c16194fac7431abf2f5485ed711db282183c819e08ebaa
    ∷ 0x8a8d7fe3af8caa085a7639a832001457dfb9128a8061142ad0335629ff23ff9c
    ∷ 0xfeb3c337d7a51a6fbf00b9e34c52e1c9195c969bd4e7a0bfd51d5c5bed9c1167
    ∷ 0xe71f0aa83cc32edfbefa9f4d3e0174ca85182eec9f3a09f6a6c0df6377a510d7
    ∷ 0x31206fa80a50bb6abe29085058f16212212a60eec8f049fecb92d8c8e0a84bc0
    ∷ 0x21352bfecbeddde993839f614c3dac0a3ee37543f9b412b16199dc158e23b544
    ∷ 0x619e312724bb6d7c3153ed9de791d764a366b389af13c58bf8a8d90481a46765
    ∷ 0x7cdd2986268250628d0c10e385c58c6191e6fbe05191bcc04f133f2cea72c1c4
    ∷ 0x848930bd7ba8cac54661072113fb278869e07bb8587f91392933374d017bcbe1
    ∷ 0x8869ff2c22b28cc10510d9853292803328be4fb0e80495e8bb8d271f5b889636
    ∷ 0xb5fe28e79f1b850f8658246ce9b6a1e7b49fc06db7143e8fe0b4f2b0c5523a5c
    ∷ 0x985e929f70af28d0bdd1a90a808f977f597c7c778c489e98d3bd8910d31ac0f7
    ∷ 0xc6f67e02e6e4e1bdefb994c6098953f34636ba2b6ca20a4721d2b26a886722ff
    ∷ 0x1c9a7e5ff1cf48b4ad1582d3f4e4a1004f3b20d8c5a2b71387a4254ad933ebc5
    ∷ 0x2f075ae229646b6f6aed19a5e372cf295081401eb893ff599b3f9acc0c0d3e7d
    ∷ 0x328921deb59612076801e8cd61592107b5c67c79b846595cc6320c395b46362c
    ∷ 0xbfb909fdb236ad2411b4e4883810a074b840464689986c3f8a8091827e17c327
    ∷ 0x55d8fb3687ba3ba49f342c77f5a1f89bec83d811446e1a467139213d640b6a74
    ∷ 0xf7210d4f8e7e1039790e7bf4efa207555a10a6db1dd4b95da313aaa88b88fe76
    ∷ 0xad21b516cbc645ffe34ab5de1c8aef8cd4e7f8d2b51e8e1456adc7563cda206f
    ∷ 0x6bfe8d2bcc4237b74a5047058ef455339ecd7360cb63bfbb8ee5448e6430ba04
    ∷ 0xa7f23ce9181740dc220c814782654fee6aceb9f1ec9222c4e2467d0ab1680837
    ∷ 0xaef9476c89590a2c8cc9b3b74f4967c757c49d9866a44bacf21fa2ed675ddfa2
    ∷ 0x9a42bcad82f6a9e41284d808ead319f29f3b08209d680f0e2ce71510d071e205
    ∷ 0xd1a66d354a67b9cf179571d8e5f97792716e8dd4ec44196839a3f7c6b74f8bac
    ∷ 0xfafa3025f2f89509c2c71c74fba0cd92858ef49b0780fb5479746c8a9bfcb346
    ∷ 0x3334a7c1e7f6705aa6011a6a949645016db4acde0ca9abd66dc79d8266423056
    ∷ 0x0796fd75664faef744ee4e52d7271e2bbb769f91ed6f9b74d8b694f56606852c
    ∷ 0x7ba3ae4a417fe8545b142bc89f4adcd7ae13941cbab7750b83e9f0a66d16be64
    ∷ 0x788fafcc4aa520399adbaed195f8b12c4eb31ec10168e50aabc659a6aea516dc
    ∷ 0xe833d7a67160e68bf4c9044a53077df2727ad00cf36f4949c7b681a912140cbb
    ∷ 0x309eabf095dc6714f9f4d864bba5affae0b35ae2f5e3565bcc3a47b212767701
    ∷ 0x226a8ebefa288665a644a50273335efbb610510f241b5b720c8a368d59a69a5d
    ∷ 0x41abfd995425827625938131af0c4f33fe0bd4688c222c21fa9da8e89caa03f8
    ∷ 0x442c642ef50fa1a667a6e6d105c77c5cc3fec8d7aa2570cf1a3077b503c38069
    ∷ 0xa0a08dfc9b42d96c2de19b6d127b8ae136ddcf3e5ad0dce422c45a56f61f6a74
    ∷ 0x7d348382af096dbe0bf086c7bb39b2a2c0bc36b621ab0c738e9885d731d81740
    ∷ 0x3ab134751d191269026c86994eaa8b43a83b4ad1f6d0e77381c4e2974afbc8f6
    ∷ 0x9a7452611db2d23eae26f9bdbb88958ef44c64d0fe987be9f726adf938f50f6c
    ∷ 0x725c7f816037bfe452cd1e7ba35ac47edcb49a9a2b27aeca70dce483cb7ded1f
    ∷ 0x2cea1af51fb28b62887c39998ac9fef4dfdeda1f07e071ba558a173afd06cbc3
    ∷ 0xff1d59f98b6c551d95089357057d5c8be26402279e9df0b1df1a10b72bf3927f
    ∷ 0x2f8a181f7c99dd215a7529bfe296a9603a1446737186d21aeb8bc7ae59e1fd21
    ∷ 0xecc502c9b1145f3950cb7d3e3842446f81a4f0df1df537cee139ef64ea984bd9
    ∷ 0xc885c236140249c9e1640e5e99fb972d81fbb31ea5e29fbdde063627f0d6bdc8
    ∷ 0x303ce38809ba7a77b660ad0b074af9c6bcd5c02bbff2f3b0248633b0b876e449
    ∷ 0x2fd4c32b0a65616d4bceb9e2f2bd4dcf7535546f433a3e1d45ce54abc059c867
    ∷ 0x2f8d300488ab4f7464d9ee9e59d80aaa8a2039af5513f320e5a3083c63ea68ef
    ∷ 0x48562f2ab1873a6120f575267a37db470d4a6bc83ed1ad903e64f7b3755766ad
    ∷ 0x2820f9073707ceff6a0e5e2bcfca8d73d235ade70d0afd535c9177fb9266c9f7
    ∷ 0xf3f6a8151f64f6bdddc4b8c0963c5712eef47d6eb432f12699c5295914f08ea2
    ∷ 0x2ea941b101d99e7b6b18a6a62a0f573c4b80d0c68ca1d15f885de9ce0b4fc488
    ∷ 0x8212c49b0949693091c6672a06241f3df865a676cccdcbd16f0615eea6068383
    ∷ 0xe726e40dbd2f9841293b5b3c15e918a872aed2ba491f4e111ea0913a04ffe165
    ∷ 0x7729475e1ace968d096a7cbf0b88348158a37eef64b90994cbd37ddc3adf5370
    ∷ 0xfc487e466c2bf48d87b5d66f5aa24f9c5b3f990e210f5065050d5208d59b6b87
    ∷ 0x77fc88582c114fb77e9bc6666e3f3fc6e89e4cbd3dd1590a6f67adb547f348d5
    ∷ 0xdc243614ffda79e3d7556ef3fdea0b44df1757badae017b05f5133fd15c27aea
    ∷ 0xe705095fe3ed6cb2da458664229c5158d88aa0f775528dfb27ff3ffe270fc0c9
    ∷ 0x779f1ecbfae3d0e1e7328817446dbf4bcb6a678c6ca4e2726e9f3e6e65fcdaca
    ∷ 0x5e5c577e401fb0ed3c051979201cfc5ec100dae9942278e99e3434cfe560c276
    ∷ 0x1894ce6124659cb0d6f90a84424e372b59dd7e7220bdb16804539b51ba7c6ef1
    ∷ 0x641edf1965e87a70428712727ed1db13b2de91ed574c83b28339bc7502aec3f2
    ∷ 0x0a36dc4d1b170aec654cd6e3886f6ae3a2448d30a95e3ae5c56b7a5b00cb8f3d
    ∷ 0x571968a6a58857784b13e1bf9480285a7ae70ddf2e321d06b17cf0a933119cdd
    ∷ 0xe56813628ec57e8de059bca787d1ef7cb1cb9f608c6ba0bf780277beddbd3f27
    ∷ 0x5ef1e53a05f43d01472447d914409459ce5f2b0d24566187efdbefc25864da2b
    ∷ 0xad19b79824b2a80a8b891450d2c7fccf9e51c25979b37dba8ed597fb93ba9d9d
    ∷ 0x180fedca06656cb910077013ad2679695090269fad1589e290162fe90e97d4aa
    ∷ 0x73f472650e8da09bcf2c8cb998db52bb27bba5c6335d4844323d68094c1028f8
    ∷ 0xff746696955cfa91aed5e76102710dfe2e278279bf543de9c3df8a7134a33b64
    ∷ 0x2e98ae4b6e69b95b71048ec119719851c050529a20c67a2c401723b34de9748a
    ∷ 0x3b5c39d7274c2a74d4ed2d9e8410ead2f351dfd6158148f1b10d97d60d739207
    ∷ 0x423f672311c1a44ce5a44765f6217eabf759de2bd882b6bf0f7b09694e4b8043
    ∷ 0xa3ba0d85049395335718883c7451cd3d10a326b1d73e223aa5549ee68c3beabf
    ∷ 0xd3d47dffaa99a033c8c3bb62dc0a438b71f91b18a38c87a49fa88474dde87924
    ∷ 0x4189d201eed3f4ebcb3fd5a4c73f282923f010e753c3c5e7e3d0199037a3b087
    ∷ 0x142a03b09d66cbe5b45fea8fa25d6a297084aed9e03bee72862f9d6b3dbabba0
    ∷ 0x4cd8ea52aca52408fb87b0e697cd24632d94a6df757fa3f29cc0a5d5494edcc5
    ∷ 0xafa2c75dc2c5a8462c17092ee1efe21de9b10f0dc0dea0794f304513e1aa33d2 ∷ []

unfoldable pub zero_hashes : List Hash
unfolding big_endian zero_hash_numbers
zero_hashes = map (big_endian 32) zero_hash_numbers

rows_sized : (rows : List ℕ) → All (λ (z : Hash). length z ≡ 32) (map (big_endian 32) rows)
unfolding big_endian
rows_sized [] = tt
rows_sized (row ∷ rows) = (refl, rows_sized rows)

-- Every row has 32 bytes.
pub zero_hashes_sized : All (λ (z : Hash). length z ≡ 32) zero_hashes
unfolding zero_hashes
zero_hashes_sized = rows_sized zero_hash_numbers
