-- ===== src/Codes/Panics.antt =====
-- optee-utee-sys/src/tee_api_defines.rs: the identifiers of the functions that panic.
use optee_utee.Prelude.{ℕ, ◌<◌, arith, List, [], ◌∷◌, map}

pub data TeePanicId : Type 0 where
  tee_panic_id_ta_closesessionentrypoint tee_panic_id_ta_createentrypoint
        tee_panic_id_ta_destroyentrypoint tee_panic_id_ta_invokecommandentrypoint
        tee_panic_id_ta_opensessionentrypoint tee_panic_id_tee_allocatepropertyenumerator
        tee_panic_id_tee_freepropertyenumerator tee_panic_id_tee_getnextproperty
        tee_panic_id_tee_getpropertyasbinaryblock tee_panic_id_tee_getpropertyasbool
        tee_panic_id_tee_getpropertyasidentity tee_panic_id_tee_getpropertyasstring
        tee_panic_id_tee_getpropertyasu32 tee_panic_id_tee_getpropertyasuuid
        tee_panic_id_tee_getpropertyname tee_panic_id_tee_resetpropertyenumerator
        tee_panic_id_tee_startpropertyenumerator tee_panic_id_tee_panic
        tee_panic_id_tee_closetasession tee_panic_id_tee_invoketacommand
        tee_panic_id_tee_opentasession tee_panic_id_tee_getcancellationflag
        tee_panic_id_tee_maskcancellation tee_panic_id_tee_unmaskcancellation
        tee_panic_id_tee_checkmemoryaccessrights tee_panic_id_tee_free
        tee_panic_id_tee_getinstancedata tee_panic_id_tee_malloc tee_panic_id_tee_memcompare
        tee_panic_id_tee_memfill tee_panic_id_tee_memmove tee_panic_id_tee_realloc
        tee_panic_id_tee_setinstancedata tee_panic_id_tee_closeobject
        tee_panic_id_tee_getobjectbufferattribute tee_panic_id_tee_getobjectinfo
        tee_panic_id_tee_getobjectvalueattribute tee_panic_id_tee_restrictobjectusage
        tee_panic_id_tee_getobjectinfo1 tee_panic_id_tee_restrictobjectusage1
        tee_panic_id_tee_allocatetransientobject tee_panic_id_tee_copyobjectattributes
        tee_panic_id_tee_freetransientobject tee_panic_id_tee_generatekey
        tee_panic_id_tee_initrefattribute tee_panic_id_tee_initvalueattribute
        tee_panic_id_tee_populatetransientobject tee_panic_id_tee_resettransientobject
        tee_panic_id_tee_copyobjectattributes1 tee_panic_id_tee_closeanddeletepersistentobject
        tee_panic_id_tee_createpersistentobject tee_panic_id_tee_openpersistentobject
        tee_panic_id_tee_renamepersistentobject tee_panic_id_tee_closeanddeletepersistentobject1
        tee_panic_id_tee_allocatepersistentobjectenumerator
        tee_panic_id_tee_freepersistentobjectenumerator tee_panic_id_tee_getnextpersistentobject
        tee_panic_id_tee_resetpersistentobjectenumerator
        tee_panic_id_tee_startpersistentobjectenumerator tee_panic_id_tee_readobjectdata
        tee_panic_id_tee_seekobjectdata tee_panic_id_tee_truncateobjectdata
        tee_panic_id_tee_writeobjectdata tee_panic_id_tee_allocateoperation
        tee_panic_id_tee_copyoperation tee_panic_id_tee_freeoperation
        tee_panic_id_tee_getoperationinfo tee_panic_id_tee_resetoperation
        tee_panic_id_tee_setoperationkey tee_panic_id_tee_setoperationkey2
        tee_panic_id_tee_getoperationinfomultiple tee_panic_id_tee_digestdofinal
        tee_panic_id_tee_digestupdate tee_panic_id_tee_cipherdofinal tee_panic_id_tee_cipherinit
        tee_panic_id_tee_cipherupdate tee_panic_id_tee_maccomparefinal
        tee_panic_id_tee_maccomputefinal tee_panic_id_tee_macinit tee_panic_id_tee_macupdate
        tee_panic_id_tee_aedecryptfinal tee_panic_id_tee_aeencryptfinal tee_panic_id_tee_aeinit
        tee_panic_id_tee_aeupdate tee_panic_id_tee_aeupdateaad tee_panic_id_tee_asymmetricdecrypt
        tee_panic_id_tee_asymmetricencrypt tee_panic_id_tee_asymmetricsigndigest
        tee_panic_id_tee_asymmetricverifydigest tee_panic_id_tee_derivekey
        tee_panic_id_tee_generaterandom tee_panic_id_tee_getreetime tee_panic_id_tee_getsystemtime
        tee_panic_id_tee_gettapersistenttime tee_panic_id_tee_settapersistenttime
        tee_panic_id_tee_wait tee_panic_id_tee_bigintfmmcontextsizeinu32
        tee_panic_id_tee_bigintfmmsizeinu32 tee_panic_id_tee_bigintinit
        tee_panic_id_tee_bigintinitfmm tee_panic_id_tee_bigintinitfmmcontext
        tee_panic_id_tee_bigintconvertfromoctetstring tee_panic_id_tee_bigintconvertfroms32
        tee_panic_id_tee_bigintconverttooctetstring tee_panic_id_tee_bigintconverttos32
        tee_panic_id_tee_bigintcmp tee_panic_id_tee_bigintcmps32 tee_panic_id_tee_bigintgetbit
        tee_panic_id_tee_bigintgetbitcount tee_panic_id_tee_bigintshiftright
        tee_panic_id_tee_bigintadd tee_panic_id_tee_bigintdiv tee_panic_id_tee_bigintmul
        tee_panic_id_tee_bigintneg tee_panic_id_tee_bigintsquare tee_panic_id_tee_bigintsub
        tee_panic_id_tee_bigintaddmod tee_panic_id_tee_bigintinvmod tee_panic_id_tee_bigintmod
        tee_panic_id_tee_bigintmulmod tee_panic_id_tee_bigintsquaremod tee_panic_id_tee_bigintsubmod
        tee_panic_id_tee_bigintcomputeextendedgcd tee_panic_id_tee_bigintisprobableprime
        tee_panic_id_tee_bigintrelativeprime tee_panic_id_tee_bigintcomputefmm
        tee_panic_id_tee_bigintconvertfromfmm tee_panic_id_tee_bigintconverttofmm :
      TeePanicId

unfoldable pub panic_id_value : TeePanicId → ℕ
panic_id_value TeePanicId.tee_panic_id_ta_closesessionentrypoint = 0x00000101
panic_id_value TeePanicId.tee_panic_id_ta_createentrypoint = 0x00000102
panic_id_value TeePanicId.tee_panic_id_ta_destroyentrypoint = 0x00000103
panic_id_value TeePanicId.tee_panic_id_ta_invokecommandentrypoint = 0x00000104
panic_id_value TeePanicId.tee_panic_id_ta_opensessionentrypoint = 0x00000105
panic_id_value TeePanicId.tee_panic_id_tee_allocatepropertyenumerator = 0x00000201
panic_id_value TeePanicId.tee_panic_id_tee_freepropertyenumerator = 0x00000202
panic_id_value TeePanicId.tee_panic_id_tee_getnextproperty = 0x00000203
panic_id_value TeePanicId.tee_panic_id_tee_getpropertyasbinaryblock = 0x00000204
panic_id_value TeePanicId.tee_panic_id_tee_getpropertyasbool = 0x00000205
panic_id_value TeePanicId.tee_panic_id_tee_getpropertyasidentity = 0x00000206
panic_id_value TeePanicId.tee_panic_id_tee_getpropertyasstring = 0x00000207
panic_id_value TeePanicId.tee_panic_id_tee_getpropertyasu32 = 0x00000208
panic_id_value TeePanicId.tee_panic_id_tee_getpropertyasuuid = 0x00000209
panic_id_value TeePanicId.tee_panic_id_tee_getpropertyname = 0x0000020A
panic_id_value TeePanicId.tee_panic_id_tee_resetpropertyenumerator = 0x0000020B
panic_id_value TeePanicId.tee_panic_id_tee_startpropertyenumerator = 0x0000020C
panic_id_value TeePanicId.tee_panic_id_tee_panic = 0x00000301
panic_id_value TeePanicId.tee_panic_id_tee_closetasession = 0x00000401
panic_id_value TeePanicId.tee_panic_id_tee_invoketacommand = 0x00000402
panic_id_value TeePanicId.tee_panic_id_tee_opentasession = 0x00000403
panic_id_value TeePanicId.tee_panic_id_tee_getcancellationflag = 0x00000501
panic_id_value TeePanicId.tee_panic_id_tee_maskcancellation = 0x00000502
panic_id_value TeePanicId.tee_panic_id_tee_unmaskcancellation = 0x00000503
panic_id_value TeePanicId.tee_panic_id_tee_checkmemoryaccessrights = 0x00000601
panic_id_value TeePanicId.tee_panic_id_tee_free = 0x00000602
panic_id_value TeePanicId.tee_panic_id_tee_getinstancedata = 0x00000603
panic_id_value TeePanicId.tee_panic_id_tee_malloc = 0x00000604
panic_id_value TeePanicId.tee_panic_id_tee_memcompare = 0x00000605
panic_id_value TeePanicId.tee_panic_id_tee_memfill = 0x00000606
panic_id_value TeePanicId.tee_panic_id_tee_memmove = 0x00000607
panic_id_value TeePanicId.tee_panic_id_tee_realloc = 0x00000608
panic_id_value TeePanicId.tee_panic_id_tee_setinstancedata = 0x00000609
panic_id_value TeePanicId.tee_panic_id_tee_closeobject = 0x00000701
panic_id_value TeePanicId.tee_panic_id_tee_getobjectbufferattribute = 0x00000702
panic_id_value TeePanicId.tee_panic_id_tee_getobjectinfo = 0x00000703
panic_id_value TeePanicId.tee_panic_id_tee_getobjectvalueattribute = 0x00000704
panic_id_value TeePanicId.tee_panic_id_tee_restrictobjectusage = 0x00000705
panic_id_value TeePanicId.tee_panic_id_tee_getobjectinfo1 = 0x00000706
panic_id_value TeePanicId.tee_panic_id_tee_restrictobjectusage1 = 0x00000707
panic_id_value TeePanicId.tee_panic_id_tee_allocatetransientobject = 0x00000801
panic_id_value TeePanicId.tee_panic_id_tee_copyobjectattributes = 0x00000802
panic_id_value TeePanicId.tee_panic_id_tee_freetransientobject = 0x00000803
panic_id_value TeePanicId.tee_panic_id_tee_generatekey = 0x00000804
panic_id_value TeePanicId.tee_panic_id_tee_initrefattribute = 0x00000805
panic_id_value TeePanicId.tee_panic_id_tee_initvalueattribute = 0x00000806
panic_id_value TeePanicId.tee_panic_id_tee_populatetransientobject = 0x00000807
panic_id_value TeePanicId.tee_panic_id_tee_resettransientobject = 0x00000808
panic_id_value TeePanicId.tee_panic_id_tee_copyobjectattributes1 = 0x00000809
panic_id_value TeePanicId.tee_panic_id_tee_closeanddeletepersistentobject = 0x00000901
panic_id_value TeePanicId.tee_panic_id_tee_createpersistentobject = 0x00000902
panic_id_value TeePanicId.tee_panic_id_tee_openpersistentobject = 0x00000903
panic_id_value TeePanicId.tee_panic_id_tee_renamepersistentobject = 0x00000904
panic_id_value TeePanicId.tee_panic_id_tee_closeanddeletepersistentobject1 = 0x00000905
panic_id_value TeePanicId.tee_panic_id_tee_allocatepersistentobjectenumerator = 0x00000A01
panic_id_value TeePanicId.tee_panic_id_tee_freepersistentobjectenumerator = 0x00000A02
panic_id_value TeePanicId.tee_panic_id_tee_getnextpersistentobject = 0x00000A03
panic_id_value TeePanicId.tee_panic_id_tee_resetpersistentobjectenumerator = 0x00000A04
panic_id_value TeePanicId.tee_panic_id_tee_startpersistentobjectenumerator = 0x00000A05
panic_id_value TeePanicId.tee_panic_id_tee_readobjectdata = 0x00000B01
panic_id_value TeePanicId.tee_panic_id_tee_seekobjectdata = 0x00000B02
panic_id_value TeePanicId.tee_panic_id_tee_truncateobjectdata = 0x00000B03
panic_id_value TeePanicId.tee_panic_id_tee_writeobjectdata = 0x00000B04
panic_id_value TeePanicId.tee_panic_id_tee_allocateoperation = 0x00000C01
panic_id_value TeePanicId.tee_panic_id_tee_copyoperation = 0x00000C02
panic_id_value TeePanicId.tee_panic_id_tee_freeoperation = 0x00000C03
panic_id_value TeePanicId.tee_panic_id_tee_getoperationinfo = 0x00000C04
panic_id_value TeePanicId.tee_panic_id_tee_resetoperation = 0x00000C05
panic_id_value TeePanicId.tee_panic_id_tee_setoperationkey = 0x00000C06
panic_id_value TeePanicId.tee_panic_id_tee_setoperationkey2 = 0x00000C07
panic_id_value TeePanicId.tee_panic_id_tee_getoperationinfomultiple = 0x00000C08
panic_id_value TeePanicId.tee_panic_id_tee_digestdofinal = 0x00000D01
panic_id_value TeePanicId.tee_panic_id_tee_digestupdate = 0x00000D02
panic_id_value TeePanicId.tee_panic_id_tee_cipherdofinal = 0x00000E01
panic_id_value TeePanicId.tee_panic_id_tee_cipherinit = 0x00000E02
panic_id_value TeePanicId.tee_panic_id_tee_cipherupdate = 0x00000E03
panic_id_value TeePanicId.tee_panic_id_tee_maccomparefinal = 0x00000F01
panic_id_value TeePanicId.tee_panic_id_tee_maccomputefinal = 0x00000F02
panic_id_value TeePanicId.tee_panic_id_tee_macinit = 0x00000F03
panic_id_value TeePanicId.tee_panic_id_tee_macupdate = 0x00000F04
panic_id_value TeePanicId.tee_panic_id_tee_aedecryptfinal = 0x00001001
panic_id_value TeePanicId.tee_panic_id_tee_aeencryptfinal = 0x00001002
panic_id_value TeePanicId.tee_panic_id_tee_aeinit = 0x00001003
panic_id_value TeePanicId.tee_panic_id_tee_aeupdate = 0x00001004
panic_id_value TeePanicId.tee_panic_id_tee_aeupdateaad = 0x00001005
panic_id_value TeePanicId.tee_panic_id_tee_asymmetricdecrypt = 0x00001101
panic_id_value TeePanicId.tee_panic_id_tee_asymmetricencrypt = 0x00001102
panic_id_value TeePanicId.tee_panic_id_tee_asymmetricsigndigest = 0x00001103
panic_id_value TeePanicId.tee_panic_id_tee_asymmetricverifydigest = 0x00001104
panic_id_value TeePanicId.tee_panic_id_tee_derivekey = 0x00001201
panic_id_value TeePanicId.tee_panic_id_tee_generaterandom = 0x00001301
panic_id_value TeePanicId.tee_panic_id_tee_getreetime = 0x00001401
panic_id_value TeePanicId.tee_panic_id_tee_getsystemtime = 0x00001402
panic_id_value TeePanicId.tee_panic_id_tee_gettapersistenttime = 0x00001403
panic_id_value TeePanicId.tee_panic_id_tee_settapersistenttime = 0x00001404
panic_id_value TeePanicId.tee_panic_id_tee_wait = 0x00001405
panic_id_value TeePanicId.tee_panic_id_tee_bigintfmmcontextsizeinu32 = 0x00001501
panic_id_value TeePanicId.tee_panic_id_tee_bigintfmmsizeinu32 = 0x00001502
panic_id_value TeePanicId.tee_panic_id_tee_bigintinit = 0x00001601
panic_id_value TeePanicId.tee_panic_id_tee_bigintinitfmm = 0x00001602
panic_id_value TeePanicId.tee_panic_id_tee_bigintinitfmmcontext = 0x00001603
panic_id_value TeePanicId.tee_panic_id_tee_bigintconvertfromoctetstring = 0x00001701
panic_id_value TeePanicId.tee_panic_id_tee_bigintconvertfroms32 = 0x00001702
panic_id_value TeePanicId.tee_panic_id_tee_bigintconverttooctetstring = 0x00001703
panic_id_value TeePanicId.tee_panic_id_tee_bigintconverttos32 = 0x00001704
panic_id_value TeePanicId.tee_panic_id_tee_bigintcmp = 0x00001801
panic_id_value TeePanicId.tee_panic_id_tee_bigintcmps32 = 0x00001802
panic_id_value TeePanicId.tee_panic_id_tee_bigintgetbit = 0x00001803
panic_id_value TeePanicId.tee_panic_id_tee_bigintgetbitcount = 0x00001804
panic_id_value TeePanicId.tee_panic_id_tee_bigintshiftright = 0x00001805
panic_id_value TeePanicId.tee_panic_id_tee_bigintadd = 0x00001901
panic_id_value TeePanicId.tee_panic_id_tee_bigintdiv = 0x00001902
panic_id_value TeePanicId.tee_panic_id_tee_bigintmul = 0x00001903
panic_id_value TeePanicId.tee_panic_id_tee_bigintneg = 0x00001904
panic_id_value TeePanicId.tee_panic_id_tee_bigintsquare = 0x00001905
panic_id_value TeePanicId.tee_panic_id_tee_bigintsub = 0x00001906
panic_id_value TeePanicId.tee_panic_id_tee_bigintaddmod = 0x00001A01
panic_id_value TeePanicId.tee_panic_id_tee_bigintinvmod = 0x00001A02
panic_id_value TeePanicId.tee_panic_id_tee_bigintmod = 0x00001A03
panic_id_value TeePanicId.tee_panic_id_tee_bigintmulmod = 0x00001A04
panic_id_value TeePanicId.tee_panic_id_tee_bigintsquaremod = 0x00001A05
panic_id_value TeePanicId.tee_panic_id_tee_bigintsubmod = 0x00001A06
panic_id_value TeePanicId.tee_panic_id_tee_bigintcomputeextendedgcd = 0x00001B01
panic_id_value TeePanicId.tee_panic_id_tee_bigintisprobableprime = 0x00001B02
panic_id_value TeePanicId.tee_panic_id_tee_bigintrelativeprime = 0x00001B03
panic_id_value TeePanicId.tee_panic_id_tee_bigintcomputefmm = 0x00001C01
panic_id_value TeePanicId.tee_panic_id_tee_bigintconvertfromfmm = 0x00001C02
panic_id_value TeePanicId.tee_panic_id_tee_bigintconverttofmm = 0x00001C03

-- The identifiers in the order of their declaration.
abbrev declared : List TeePanicId
declared =
    TeePanicId.tee_panic_id_ta_closesessionentrypoint ∷ TeePanicId.tee_panic_id_ta_createentrypoint
    ∷ TeePanicId.tee_panic_id_ta_destroyentrypoint
    ∷ TeePanicId.tee_panic_id_ta_invokecommandentrypoint
    ∷ TeePanicId.tee_panic_id_ta_opensessionentrypoint
    ∷ TeePanicId.tee_panic_id_tee_allocatepropertyenumerator
    ∷ TeePanicId.tee_panic_id_tee_freepropertyenumerator
    ∷ TeePanicId.tee_panic_id_tee_getnextproperty
    ∷ TeePanicId.tee_panic_id_tee_getpropertyasbinaryblock
    ∷ TeePanicId.tee_panic_id_tee_getpropertyasbool
    ∷ TeePanicId.tee_panic_id_tee_getpropertyasidentity
    ∷ TeePanicId.tee_panic_id_tee_getpropertyasstring ∷ TeePanicId.tee_panic_id_tee_getpropertyasu32
    ∷ TeePanicId.tee_panic_id_tee_getpropertyasuuid ∷ TeePanicId.tee_panic_id_tee_getpropertyname
    ∷ TeePanicId.tee_panic_id_tee_resetpropertyenumerator
    ∷ TeePanicId.tee_panic_id_tee_startpropertyenumerator ∷ TeePanicId.tee_panic_id_tee_panic
    ∷ TeePanicId.tee_panic_id_tee_closetasession ∷ TeePanicId.tee_panic_id_tee_invoketacommand
    ∷ TeePanicId.tee_panic_id_tee_opentasession ∷ TeePanicId.tee_panic_id_tee_getcancellationflag
    ∷ TeePanicId.tee_panic_id_tee_maskcancellation ∷ TeePanicId.tee_panic_id_tee_unmaskcancellation
    ∷ TeePanicId.tee_panic_id_tee_checkmemoryaccessrights ∷ TeePanicId.tee_panic_id_tee_free
    ∷ TeePanicId.tee_panic_id_tee_getinstancedata ∷ TeePanicId.tee_panic_id_tee_malloc
    ∷ TeePanicId.tee_panic_id_tee_memcompare ∷ TeePanicId.tee_panic_id_tee_memfill
    ∷ TeePanicId.tee_panic_id_tee_memmove ∷ TeePanicId.tee_panic_id_tee_realloc
    ∷ TeePanicId.tee_panic_id_tee_setinstancedata ∷ TeePanicId.tee_panic_id_tee_closeobject
    ∷ TeePanicId.tee_panic_id_tee_getobjectbufferattribute
    ∷ TeePanicId.tee_panic_id_tee_getobjectinfo
    ∷ TeePanicId.tee_panic_id_tee_getobjectvalueattribute
    ∷ TeePanicId.tee_panic_id_tee_restrictobjectusage ∷ TeePanicId.tee_panic_id_tee_getobjectinfo1
    ∷ TeePanicId.tee_panic_id_tee_restrictobjectusage1
    ∷ TeePanicId.tee_panic_id_tee_allocatetransientobject
    ∷ TeePanicId.tee_panic_id_tee_copyobjectattributes
    ∷ TeePanicId.tee_panic_id_tee_freetransientobject ∷ TeePanicId.tee_panic_id_tee_generatekey
    ∷ TeePanicId.tee_panic_id_tee_initrefattribute ∷ TeePanicId.tee_panic_id_tee_initvalueattribute
    ∷ TeePanicId.tee_panic_id_tee_populatetransientobject
    ∷ TeePanicId.tee_panic_id_tee_resettransientobject
    ∷ TeePanicId.tee_panic_id_tee_copyobjectattributes1
    ∷ TeePanicId.tee_panic_id_tee_closeanddeletepersistentobject
    ∷ TeePanicId.tee_panic_id_tee_createpersistentobject
    ∷ TeePanicId.tee_panic_id_tee_openpersistentobject
    ∷ TeePanicId.tee_panic_id_tee_renamepersistentobject
    ∷ TeePanicId.tee_panic_id_tee_closeanddeletepersistentobject1
    ∷ TeePanicId.tee_panic_id_tee_allocatepersistentobjectenumerator
    ∷ TeePanicId.tee_panic_id_tee_freepersistentobjectenumerator
    ∷ TeePanicId.tee_panic_id_tee_getnextpersistentobject
    ∷ TeePanicId.tee_panic_id_tee_resetpersistentobjectenumerator
    ∷ TeePanicId.tee_panic_id_tee_startpersistentobjectenumerator
    ∷ TeePanicId.tee_panic_id_tee_readobjectdata ∷ TeePanicId.tee_panic_id_tee_seekobjectdata
    ∷ TeePanicId.tee_panic_id_tee_truncateobjectdata ∷ TeePanicId.tee_panic_id_tee_writeobjectdata
    ∷ TeePanicId.tee_panic_id_tee_allocateoperation ∷ TeePanicId.tee_panic_id_tee_copyoperation
    ∷ TeePanicId.tee_panic_id_tee_freeoperation ∷ TeePanicId.tee_panic_id_tee_getoperationinfo
    ∷ TeePanicId.tee_panic_id_tee_resetoperation ∷ TeePanicId.tee_panic_id_tee_setoperationkey
    ∷ TeePanicId.tee_panic_id_tee_setoperationkey2
    ∷ TeePanicId.tee_panic_id_tee_getoperationinfomultiple
    ∷ TeePanicId.tee_panic_id_tee_digestdofinal ∷ TeePanicId.tee_panic_id_tee_digestupdate
    ∷ TeePanicId.tee_panic_id_tee_cipherdofinal ∷ TeePanicId.tee_panic_id_tee_cipherinit
    ∷ TeePanicId.tee_panic_id_tee_cipherupdate ∷ TeePanicId.tee_panic_id_tee_maccomparefinal
    ∷ TeePanicId.tee_panic_id_tee_maccomputefinal ∷ TeePanicId.tee_panic_id_tee_macinit
    ∷ TeePanicId.tee_panic_id_tee_macupdate ∷ TeePanicId.tee_panic_id_tee_aedecryptfinal
    ∷ TeePanicId.tee_panic_id_tee_aeencryptfinal ∷ TeePanicId.tee_panic_id_tee_aeinit
    ∷ TeePanicId.tee_panic_id_tee_aeupdate ∷ TeePanicId.tee_panic_id_tee_aeupdateaad
    ∷ TeePanicId.tee_panic_id_tee_asymmetricdecrypt ∷ TeePanicId.tee_panic_id_tee_asymmetricencrypt
    ∷ TeePanicId.tee_panic_id_tee_asymmetricsigndigest
    ∷ TeePanicId.tee_panic_id_tee_asymmetricverifydigest ∷ TeePanicId.tee_panic_id_tee_derivekey
    ∷ TeePanicId.tee_panic_id_tee_generaterandom ∷ TeePanicId.tee_panic_id_tee_getreetime
    ∷ TeePanicId.tee_panic_id_tee_getsystemtime ∷ TeePanicId.tee_panic_id_tee_gettapersistenttime
    ∷ TeePanicId.tee_panic_id_tee_settapersistenttime ∷ TeePanicId.tee_panic_id_tee_wait
    ∷ TeePanicId.tee_panic_id_tee_bigintfmmcontextsizeinu32
    ∷ TeePanicId.tee_panic_id_tee_bigintfmmsizeinu32 ∷ TeePanicId.tee_panic_id_tee_bigintinit
    ∷ TeePanicId.tee_panic_id_tee_bigintinitfmm ∷ TeePanicId.tee_panic_id_tee_bigintinitfmmcontext
    ∷ TeePanicId.tee_panic_id_tee_bigintconvertfromoctetstring
    ∷ TeePanicId.tee_panic_id_tee_bigintconvertfroms32
    ∷ TeePanicId.tee_panic_id_tee_bigintconverttooctetstring
    ∷ TeePanicId.tee_panic_id_tee_bigintconverttos32 ∷ TeePanicId.tee_panic_id_tee_bigintcmp
    ∷ TeePanicId.tee_panic_id_tee_bigintcmps32 ∷ TeePanicId.tee_panic_id_tee_bigintgetbit
    ∷ TeePanicId.tee_panic_id_tee_bigintgetbitcount ∷ TeePanicId.tee_panic_id_tee_bigintshiftright
    ∷ TeePanicId.tee_panic_id_tee_bigintadd ∷ TeePanicId.tee_panic_id_tee_bigintdiv
    ∷ TeePanicId.tee_panic_id_tee_bigintmul ∷ TeePanicId.tee_panic_id_tee_bigintneg
    ∷ TeePanicId.tee_panic_id_tee_bigintsquare ∷ TeePanicId.tee_panic_id_tee_bigintsub
    ∷ TeePanicId.tee_panic_id_tee_bigintaddmod ∷ TeePanicId.tee_panic_id_tee_bigintinvmod
    ∷ TeePanicId.tee_panic_id_tee_bigintmod ∷ TeePanicId.tee_panic_id_tee_bigintmulmod
    ∷ TeePanicId.tee_panic_id_tee_bigintsquaremod ∷ TeePanicId.tee_panic_id_tee_bigintsubmod
    ∷ TeePanicId.tee_panic_id_tee_bigintcomputeextendedgcd
    ∷ TeePanicId.tee_panic_id_tee_bigintisprobableprime
    ∷ TeePanicId.tee_panic_id_tee_bigintrelativeprime ∷ TeePanicId.tee_panic_id_tee_bigintcomputefmm
    ∷ TeePanicId.tee_panic_id_tee_bigintconvertfromfmm
    ∷ TeePanicId.tee_panic_id_tee_bigintconverttofmm ∷ []

-- Every number of the list is larger than the one before it, the first than `n`.
abbrev AllAbove : ℕ → List ℕ → Type 0
AllAbove n [] = Unit {0}
AllAbove n (x ∷ xs) = (n < x) × AllAbove x xs

-- No two functions have one identifier: in their order the identifiers increase.
panic_ids_increase : AllAbove 0 (map panic_id_value declared)
unfolding panic_id_value
panic_ids_increase = omega arith
