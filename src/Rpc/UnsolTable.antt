-- ===== src/Rpc/UnsolTable.antt =====
-- The dictionary of rpc_unsol_table.py, in its order.
use xmm7360_mvp.Prelude.{ℕ, String, List, [], ◌∷◌}

unfoldable pub xmm7360_unsol : List (ℕ × String)
xmm7360_unsol =
    (0x3, "UtaMsSimApduCmdRspCb")
    ∷ (0x5, "UtaMsSimApplicationRspCb")
    ∷ (0x7, "UtaMsSimInfoIndCb")
    ∷ (0x8, "UtaMsSimInitIndCb")
    ∷ (0x9, "UtaMsSimFullAccessIndCb")
    ∷ (0xa, "UtaMsSimErrorIndCb")
    ∷ (0xb, "UtaMsSimCardIndCb")
    ∷ (0xc, "UtaMsSimApplicationIndCb")
    ∷ (0xe, "UtaMsSimPbReadEntryRspCb")
    ∷ (0x10, "UtaMsSimGenPinRspCb")
    ∷ (0x12, "UtaMsSimModifyLockRspCb")
    ∷ (0x13, "UtaMsSimLockStatusIndCb")
    ∷ (0x14, "UtaMsSimTkMoSmsControlInfoIndCb")
    ∷ (0x15, "UtaMsSimTkProactiveCommandIndCb")
    ∷ (0x18, "UtaMsSimTkEnvelopeResIndCb")
    ∷ (0x1a, "UtaMsSimTkTerminalProfileReadRspCb")
    ∷ (0x1b, "UtaSimTkProactiveCommandHandlerFunc")
    ∷ (0x1e, "UtaMsCpsSetModeRsp")
    ∷ (0x22, "UtaMsCpsSetModeIndCb")
    ∷ (0x2a, "UtaMsSsNetworkErrorIndCb")
    ∷ (0x2b, "UtaMsSsNetworkRejectIndCb")
    ∷ (0x2c, "UtaMsSsNetworkGsmCauseIndCb")
    ∷ (0x2d, "UtaMsSsUssdRspCb")
    ∷ (0x2e, "UtaMsSsUssdIndCb")
    ∷ (0x2f, "UtaMsSsEndIndCb")
    ∷ (0x32, "UtaMsSmsIncomingIndCb")
    ∷ (0x33, "UtaMsSmsSendRspCb")
    ∷ (0x35, "UtaMsSmsSetMemoryAvailableRspCb")
    ∷ (0x37, "UtaMsSmsSimMsgCacheFinishedIndCb")
    ∷ (0x39, "UtaMsSmsSimMsgCountRspCb")
    ∷ (0x3e, "UtaMsCallPsDefinePrimaryRspCb")
    ∷ (0x40, "UtaMsCallPsUndefinePrimaryRspCb")
    ∷ (0x42, "UtaMsCallPsGetPrimaryRspCb")
    ∷ (0x44, "UtaMsCallPsSetAuthenticationRspCb")
    ∷ (0x46, "UtaMsCallPsSetDnsRspCb")
    ∷ (0x48, "UtaMsCallPsGetNegotiatedDnsRspCb")
    ∷ (0x4a, "UtaMsCallPsGetNegIpAddrRspCb")
    ∷ (0x4c, "UtaMsCallPsActivateRspCb")
    ∷ (0x4d, "UtaMsCallPsActivateStatusIndCb")
    ∷ (0x4f, "UtaMsCallPsDeactivateRspCb")
    ∷ (0x50, "UtaMsCallPsDeactivateIndCb")
    ∷ (0x52, "UtaMsCallPsConnectRspCb")
    ∷ (0x56, "UtaMsNetSingleShotRadioSignalReportingRspCb")
    ∷ (0x57, "UtaMsNetCellInfoIndCb")
    ∷ (0x58, "UtaMsNetConnectionInfoIndCb")
    ∷ (0x59, "UtaMsNetHspaInfoIndCb")
    ∷ (0x5a, "UtaMsNetRadioSignalIndCb")
    ∷ (0x5b, "UtaMsNetCellChangeIndCb")
    ∷ (0x63, "UtaMsNetAttachRspCb")
    ∷ (0x64, "UtaMsNetPsAttachRspCb")
    ∷ (0x65, "UtaMsNetPsDetachRspCb")
    ∷ (0x66, "UtaMsNetScanRspCb")
    ∷ (0x67, "UtaMsNetPowerDownRspCb")
    ∷ (0x68, "UtaMsNetExtScanRspCb")
    ∷ (0x69, "UtaMsNetPsAttachIndCb")
    ∷ (0x6a, "UtaMsNetPsDetachIndCb")
    ∷ (0x6b, "UtaMsNetRegistrationInfoIndCb")
    ∷ (0x6c, "UtaMsNetIsAttachAllowedIndCb")
    ∷ (0x6d, "UtaMsNetGprsClassIndCb")
    ∷ (0x6f, "UtaMsNetSetFdConfigRspCb")
    ∷ (0x70, "UtaMsNetFdConfigIndCb")
    ∷ (0x72, "UtaMsNetGetFdConfigRspCb")
    ∷ (0x74, "UtaMsNetConfigureNetworkModeRspCb")
    ∷ (0x75, "UtaMsNetNetworkModeChangeIndCb")
    ∷ (0x77, "UtaMsNetRatModeStatusRspCb")
    ∷ (0x78, "UtaMsNetRatModeStatusIndCb")
    ∷ (0x81, "UtaMsNetDcSetVoiceDomainPreferenceConfigRspCb")
    ∷ (0x83, "UtaMsCallCsSetupCallRspCb")
    ∷ (0x84, "UtaMsCallCsDialingIndCb")
    ∷ (0x85, "UtaMsCallCsAlertingIndCb")
    ∷ (0x86, "UtaMsCallCsCtmInfoIndCb")
    ∷ (0x87, "UtaMsCallCsConnectedIndCb")
    ∷ (0x89, "UtaMsCallCsReleaseCallRspCb")
    ∷ (0x8a, "UtaMsCallCsDisconnectingIndCb")
    ∷ (0x8b, "UtaMsCallCsDisconnectedIndCb")
    ∷ (0x8c, "UtaMsCallCsIncomingCallIndCb")
    ∷ (0x8e, "UtaMsCallCsAcceptCallRspCb")
    ∷ (0x8f, "UtaMsCallCsProgressIndCb")
    ∷ (0x91, "UtaMsCallCsSwapCallsRspCb")
    ∷ (0x93, "UtaMsCallCsHoldCallRspCb")
    ∷ (0x95, "UtaMsCallCsRetrieveCallRspCb")
    ∷ (0x97, "UtaMsCallCsSplitMptyRspCb")
    ∷ (0x99, "UtaMsCallCsJoinCallsRspCb")
    ∷ (0x9b, "UtaMsCallCsTransferCallsRspCb")
    ∷ (0x9d, "UtaMsCallCsStartDtmfRspCb")
    ∷ (0x9f, "UtaMsCallCsStopDtmfRspCb")
    ∷ (0xa0, "UtaMsCallCsStopDtmfExtRspCb")
    ∷ (0xa1, "UtaMsCallCsNotificationIndCb")
    ∷ (0xa2, "UtaMsCallCsCugInfoIndCb")
    ∷ (0xa3, "UtaMsCallCsCallingNameInfoIndCb")
    ∷ (0xa4, "UtaMsCallCsEmergencyNumberListIndCb")
    ∷ (0xa5, "UtaMsCallCsCallStatusIndCb")
    ∷ (0xa9, "UtaCallMultimediaGetMediaProfilesInfoRspCb")
    ∷ (0xaa, "UtaMsCallMultimediaSetupCallRspCb")
    ∷ (0xab, "UtaMsCallMultimediaUpdateCallRspCb")
    ∷ (0xae, "UtaMsCallCsVoimsSrvccHoStatusIndCb")
    ∷ (0xaf, "UtaMsCpsSetSimModeRsp")
    ∷ (0xb1, "UtaMsCpsStartupIndCb")
    ∷ (0xb3, "UtaMsSsCallForwardRspCb")
    ∷ (0xb5, "UtaMsSsCallWaitingRspCb")
    ∷ (0xb7, "UtaMsSsCallBarringRspCb")
    ∷ (0xb9, "UtaMsSsIdentificationRspCb")
    ∷ (0xbc, "UtaMsSmsDataDownloadRspCb")
    ∷ (0xbf, "UtaMsCallPsGetNegQosRspCb")
    ∷ (0xc1, "UtaMsCallPsGetTftRspCb")
    ∷ (0xc3, "UtaMsCallPsSetPcoRspCb")
    ∷ (0xc5, "UtaMsCallPsGetNwPcoRspCb")
    ∷ (0xc6, "UtaMsCallPsNwActivateIndCb")
    ∷ (0xc8, "UtaMsCallPsNwActivateAcceptRspCb")
    ∷ (0xca, "UtaMsCallPsModifyIndCb")
    ∷ (0xcb, "UtaMsCallPsSuspendIndCb")
    ∷ (0xcc, "UtaMsCallPsResumeIndCb")
    ∷ (0xce, "UtaMsCallPsSetDataPrefRspCb")
    ∷ (0xd1, "UtaMsCbsStartRspCb")
    ∷ (0xd2, "UtaMsCbsStopRspCb")
    ∷ (0xd5, "UtaMsCbsNewMessageIndCb")
    ∷ (0xd7, "UtaMsCbsEtwsConfigRspCb")
    ∷ (0xd9, "UtaMsCbsEtwsStartRspCb")
    ∷ (0xdb, "UtaMsCbsEtwsStopRspCb")
    ∷ (0xdc, "UtaMsCbsEtwsNotifyPrimaryWarningInd")
    ∷ (0xdd, "UtaMsCbsEtwsNotifySecondaryWarningInd")
    ∷ (0xe1, "UtaMsNetConfigureRxDiversityDarpIndCb")
    ∷ (0xe4, "UtaMsNetTimeInfoReadRspCb")
    ∷ (0xe5, "UtaMsNetTimeInfoIndCb")
    ∷ (0xe8, "UtaMsNetBandStatusRspCb")
    ∷ (0xe9, "UtaMsNetBandStatusIndCb")
    ∷ (0xea, "UtaMsNetSetCsgConfigRspCb")
    ∷ (0xeb, "UtaMsNetGetCsgConfigRspCb")
    ∷ (0xed, "UtaMsNetGetExtendedRadioSignalInfoRspCb")
    ∷ (0xee, "UtaMsNetNitzInfoIndCb")
    ∷ (0xf0, "UtaMsNetDetachRspCb")
    ∷ (0xf2, "UtaMsNetSelectGprsClassRspCb")
    ∷ (0xf5, "UtaMsNetNetworkFeatureSupportInfoIndCb")
    ∷ (0xf6, "UtaMsNetEpsNetworkFeatureSupportInfoIndCb")
    ∷ (0xf7, "UtaMsNetCsServiceNotificationIndCb")
    ∷ (0xf8, "UtaMsNetDualSimServiceIndCb")
    ∷ (0xfa, "UtaMsNetSingleShotFdRspCb")
    ∷ (0xfc, "UtaMsSimPbGetLocationRspCb")
    ∷ (0xfe, "UtaMsSimPbReadGasEntryRspCb")
    ∷ (0x100, "UtaMsSimPbWriteEntryRspCb")
    ∷ (0x102, "UtaMsSimPbGetMetaInformationRspCb")
    ∷ (0x104, "UtaMsSimPbUsimPbSelectRspCb")
    ∷ (0x106, "UtaMsSimPbGetFreeRecordsRspCb")
    ∷ (0x107, "UtaMsSimPbUsimPbReadyIndCb")
    ∷ (0x108, "UtaMsSimPbCacheLoadFinishedIndCb")
    ∷ (0x109, "UtaMsSimPbCacheLoadIndCb")
    ∷ (0x10d, "UtaMsSimGenPinIndCb")
    ∷ (0x10f, "UtaMsSimFdnStateIndCb")
    ∷ (0x112, "UtaIdcApMsgSetRspCb")
    ∷ (0x113, "UtaIdcApMsgGetRspCb")
    ∷ (0x117, "UtaIdcCwsMsgSetRspCb")
    ∷ (0x118, "UtaIdcCwsMsgGetRspCb")
    ∷ (0x11b, "UtaIdcCwsMsgIndCb")
    ∷ (0x11e, "UtaBootPrepareShutdownRspCb")
    ∷ (0x124, "UtaFreqInfoActivateRspCb")
    ∷ (0x125, "UtaFreqInfoDeactivateRspCb")
    ∷ (0x126, "UtaFreqInfoGetFreqInfoRspCb")
    ∷ (0x127, "UtaFreqInfoIndicationCb")
    ∷ (0x12d, "UtaModeSetRspCb")
    ∷ (0x12e, "UtaModeStartupIndCb")
    ∷ (0x131, "UtaProdGtiCmdRspCb")
    ∷ (0x135, "UtaCellTimeStampRspCb")
    ∷ (0x138, "UtaMsSsLcsMoLocationRspCb")
    ∷ (0x13a, "UtaMsSsLcsCapabilitiesIndCb")
    ∷ (0x13b, "UtaMsCpAssistanceDataInjectRspCb")
    ∷ (0x13e, "UtaMsCpAssistanceDataNeededIndCb")
    ∷ (0x13f, "UtaMsCpPosMeasurementRspCb")
    ∷ (0x141, "UtaMsCpPosMeasurementAbortRspCb")
    ∷ (0x143, "UtaMsCpPosReportMeasurementIndCb")
    ∷ (0x147, "UtaMsSimTkExecSmsPpIndCb")
    ∷ (0x149, "UtaMsSimTkExecSimInitiatedCallIndCb")
    ∷ (0x14b, "UtaMsSimTkExecSsUssdIndCb")
    ∷ (0x14d, "UtaMsSimTkExecDtmfIndCb")
    ∷ (0x14f, "UtaMsSimTkExecDtmfEndIndCb")
    ∷ (0x151, "UtaMsSimTkRefreshConfirmIndCb")
    ∷ (0x153, "UtaMsSimTkRefreshFcnIndCb")
    ∷ (0x156, "UtaMsSimTkControlRspCb")
    ∷ (0x158, "UtaMsSimTkTerminalProfileDownloadRspCb")
    ∷ (0x159, "UtaMs3gpp2SmsSendRspCb")
    ∷ (0x15b, "UtaMs3gpp2SmsIncomingIndCb")
    ∷ (0x15f, "UtaMetricsHandlerFunction")
    ∷ (0x16a, "UtaMsEmbmsSetServiceRspCb")
    ∷ (0x16b, "UtaMsEmbmsMbsfnAreaConfigRspCb")
    ∷ (0x16c, "UtaMsEmbmsSessionConfigRspCb")
    ∷ (0x16d, "UtaMsEmbmsSetInterestedTMGIListRspCb")
    ∷ (0x16e, "UtaMsEmbmsSetInterestedSAIFreqRspCb")
    ∷ (0x16f, "UtaMsEmbmsServiceIndCb")
    ∷ (0x170, "UtaMsEmbmsMBSFNAreaIndCb")
    ∷ (0x171, "UtaMsEmbmsServicesListIndCb")
    ∷ (0x172, "UtaMsEmbmsSAIListIndCb")
    ∷ (0x173, "UtaMsEmbmsMpsInfoIndCb")
    ∷ (0x174, "UtaImsStateChangedIndCb")
    ∷ (0x175, "UtaImsServiceStateChangedIndCb")
    ∷ (0x17c, "UtaMsSimOpenChannelRspCb")
    ∷ (0x17e, "UtaMsSimCloseChannelRspCb")
    ∷ (0x180, "UtaMsSimBdnStateIndCb")
    ∷ (0x182, "UtaMsSetSimStackMappingRspCb")
    ∷ (0x184, "UtaMsGetSimStackMappingRspCb")
    ∷ (0x185, "UtaMsSimMccMncIndCb")
    ∷ (0x186, "UtaMsSimTkTerminalResponseIndCb")
    ∷ (0x187, "UtaMsNetRegisteredPlmnNameIndCb")
    ∷ (0x18b, "UtaMsSimTkSetTerminalCapabilityRspCb")
    ∷ (0x18d, "UtaMsSimTkReadTerminalCapabilityRspCb")
    ∷ (0x18f, "CsiFccLockQueryRspCb")
    ∷ (0x191, "CsiFccLockGenChallengeRspCb")
    ∷ (0x193, "CsiFccLockVerChallengeRspCb")
    ∷ (0x195, "UtaSensorOpenRspCb")
    ∷ (0x196, "UtaSensorMeasIndCb")
    ∷ (0x19c, "CsiSioIpFilterCntrlSetRspCb")
    ∷ (0x1c4, "CsiSioIpFilterNewCntrlSetRspCb")
    ∷ (0x19e, "UtaMsAccCurrentFreqInfoRspCb")
    ∷ (0x19f, "UtaMsAccCurrentFreqInfoIndCb")
    ∷ (0x1a1, "CsiTrcAtCmndRspCb")
    ∷ (0x1a3, "UtaMsSimApduCmdExtRspCb")
    ∷ (0x1a5, "UtaMsNetGetPlmnNameInfoRspCb")
    ∷ (0x1a6, "UtaMsNetSib8TimeInfoIndCb")
    ∷ (0x1a8, "UtaMsNetGetCountryListRspCb")
    ∷ (0x1aa, "UtaMsNetExtConfigureNetworkModeRspCb")
    ∷ (0x1ab, "UtaMsNetExtNetworkModeChangeIndCb")
    ∷ (0x1ad, "UtaMsNetExtBandStatusRspCb")
    ∷ (0x1ae, "UtaMsNetExtBandStatusIndCb")
    ∷ (0x1b0, "UtaMsCallPsAttachApnConfigRspCb")
    ∷ (0x1be, "UtaMsCallPsReadContextStatusRspCb")
    ∷ (0x1c0, "CsiMsSimAccessGetSimStateInfoRspCb")
    ∷ (0x1c2, "CsiMsNetGetRegistrationInfoRspCb")
    ∷ (0x1c6, "CsiMsNetLdrGetApnPlmnParameterListRspCb")
    ∷ (0x1c7, "UtaMsNetLdrApnParametersChangeIndCb")
    ∷ []
